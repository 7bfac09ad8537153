-- ===== src/Session/Answers.antt =====
-- What src/transport/moqt_session.cpp answers to single messages of the peer. A function that takes the
-- transport returns a Reply; bytes that it writes, and the transport's answer to that, are written out.
use Prim.Native.String.{String}
use moqxr.Common.{
  ℕ, ◌+◌, Bool, false, not, ◌&&◌, ◌||◌, Option, none, some, List, [], ltb, ◌==◌, if◌then◌else◌,
  text_key, nat_eq,
}
use moqxr.Common.Assoc.{lookup}
use moqxr.Common.Assoc
use moqxr.Common.Sets.{member, add}
use moqxr.Draft.{DraftVersion, is_draft18, is_draft22_or_later, is_draft23_or_later}
use moqxr.Failover.{TransportStatus}
use moqxr.Wire.Control.{decode_control_message_header}
use moqxr.Wire.Requests.{encode_request_error_message}
use moqxr.Wire.Notices.{decode_goaway_message}
use moqxr.Session.Violations.{
  Reply, goes_on, close_session, protocol_violation, session_violation,
  unexpected_message_error_code,
}
use moqxr.Session.Drafts.{decode_moqint}
use moqxr.Session.RequestIds.{PeerRequestIdValidator, validate}

pub data RequestUpdateDecodeError : Type 0 where
  no_error semantic key_value_formatting auth_token_cache_overflow unknown_auth_token_alias :
      RequestUpdateDecodeError

unfoldable pub request_update_decode_failure : RequestUpdateDecodeError → ℕ → String → Reply
request_update_decode_failure key_value_formatting fault message = close_session 0x06 message
request_update_decode_failure auth_token_cache_overflow fault message = close_session 0x13 message
request_update_decode_failure unknown_auth_token_alias fault message = close_session 0x17 message
request_update_decode_failure _ fault message = protocol_violation fault message

unfoldable pub unexpected_requester_message : DraftVersion → ℕ → Reply
unexpected_requester_message draft message_type =
    if not (is_draft23_or_later draft) || message_type == 0x02 || message_type == 0x10
    then goes_on
    else if message_type == 0x22
    then close_session 0x304 "PUBLISH_STATE_NOTIFY received by the publisher of the subscription"
    else close_session unexpected_message_error_code "unexpected message on a request stream"

-- The set is of the streams that have had a GOAWAY, and the fault the one recorded before the message
-- is decoded; a message that is decoded leaves its own.
abbrev once_goaway : DraftVersion → ℕ → ℕ → List ℕ → Reply × List ℕ
once_goaway draft fault stream_id seen =
    if member stream_id seen
    then (
      session_violation draft fault unexpected_message_error_code "duplicate request GOAWAY",
      seen,
    )
    else (goes_on, add stream_id seen)

unfoldable pub request_goaway : DraftVersion → ℕ → ℕ → List ℕ → List ℕ → Bool → Reply × List ℕ
request_goaway draft fault stream_id bytes seen peer_sent_request =
    if peer_sent_request && is_draft23_or_later draft
    then (protocol_violation fault "GOAWAY from the sender of a request", seen)
    else if not (is_draft22_or_later draft)
    then once_goaway draft fault stream_id seen
    else let (decoded, fault') = decode_goaway_message bytes draft in
      elim decoded [
        | none ↦ (protocol_violation fault' "invalid request GOAWAY", seen)
        | some message ↦ once_goaway draft fault' stream_id seen
      ]

-- The refusal that is written to the stream, if it comes to that, with what write_stream answers.
pub record Refusal : Type 0 where
  pub reply : Reply
  pub written : Option (List ℕ)
  pub peer_request_ids : PeerRequestIdValidator

abbrev fetch_type_ok : List ℕ → ℕ → DraftVersion → Bool
fetch_type_ok bytes offset draft = elim (decode_moqint bytes offset draft) [
  | none ↦ false
  | some (fetch_type, offset') ↦ not (ltb fetch_type 1) && not (ltb 3 fetch_type)
]

-- With "request type not supported" as bytes.
abbrev refuse :
    DraftVersion
    → ℕ
    → List ℕ
    → (type offset request_id : ℕ) → List ℕ
    → TransportStatus
    → Reply × PeerRequestIdValidator
    → Refusal
refuse draft fault bytes type offset request_id reason answer (reply, ids) =
    if not reply.status.ok
    then record { reply = reply; written = none; peer_request_ids = ids }
    else if type == 0x16 && is_draft18 draft && not (fetch_type_ok bytes offset draft)
    then record {
      reply = protocol_violation fault "unknown FETCH type";
      written = none;
      peer_request_ids = ids;
    }
    else record {
      reply = record { closes = []; status = answer };
      written = some (encode_request_error_message draft request_id 0x03 0 reason);
      peer_request_ids = ids;
    }

unfoldable pub reject_unsupported_request :
    DraftVersion → ℕ → List ℕ → PeerRequestIdValidator → List ℕ → TransportStatus → Refusal
reject_unsupported_request draft fault bytes ids reason answer =
    let malformed : Refusal = record {
      reply = protocol_violation fault "malformed unsupported request";
      written = none;
      peer_request_ids = ids;
    } in
    elim (decode_control_message_header bytes draft) [
      | none ↦ malformed
      | some (type, offset, size) ↦ elim (decode_moqint bytes offset draft) [
        | none ↦ malformed
        | some (request_id, offset') ↦
            refuse draft fault bytes type offset' request_id reason answer (validate ids request_id)
      ]
    ]

unfoldable pub decode_unsubscribe_message : List ℕ → DraftVersion → Option ℕ
decode_unsubscribe_message bytes draft = elim (decode_control_message_header bytes draft) [
  | none ↦ none
  | some (message_type, offset, payload_length) ↦
      if not (message_type == 0x0a) then none else elim (decode_moqint bytes offset draft) [
        | none ↦ none
        | some (request_id, offset') ↦
            if offset' == offset + payload_length then some request_id else none
      ]
]

-- LargestObjectByTrack: for a track the greatest (group, object) that was noted.
abbrev LargestObjectByTrack : Type 0
LargestObjectByTrack = List (String × (ℕ × ℕ))

-- std::max of pairs
abbrev max_pair : ℕ × ℕ → ℕ × ℕ → ℕ × ℕ
max_pair (a, b) (c, d) = if ltb a c || (not (ltb c a) && ltb b d) then (c, d) else (a, b)

abbrev or_greater : Option (ℕ × ℕ) → ℕ × ℕ → ℕ × ℕ
or_greater none location = location
or_greater (some old) location = max_pair old location

unfoldable pub live_largest_object : LargestObjectByTrack → String → Option (ℕ × ℕ)
live_largest_object largest_by_track track_name = lookup {V = ℕ × ℕ} track_name largest_by_track

-- emplace, or the assignment to the entry that is there.
unfoldable pub note_largest_live_object :
    LargestObjectByTrack → String → ℕ → ℕ → LargestObjectByTrack
note_largest_live_object largest_by_track track_name group_id object_id =
    Assoc.insert track_name
      (or_greater (lookup {V = ℕ × ℕ} track_name largest_by_track) (group_id, object_id))
      largest_by_track
