-- ===== src/Session/RequestIds.antt =====
-- PeerRequestIdValidator of src/transport/moqt_session.cpp: which Request IDs the peer may use. The
-- std::set of the ids seen is a list without repetitions.
pub mod Sequence
use moqxr.Common.{
  ℕ, ◌%◌, Bool, true, false, not, ◌&&◌, ◌||◌, List, [], ◌∷◌, leb, ◌==◌, if◌then◌else◌, nat_eq,
}
use moqxr.Common.Bytes.{add64}
use moqxr.Common.Sets.{member, add}
use moqxr.Draft.{DraftVersion, is_draft16, is_draft18_or_later}
use moqxr.Session.Violations.{Reply, goes_on, close_session}

-- advertised_max_request_id, for WebTransport or raw QUIC.
abbrev pub advertised_max_request_id : Bool → ℕ
advertised_max_request_id is_web_transport = if is_web_transport then 128 else 100

abbrev too_many_requests_error_code : ℕ
too_many_requests_error_code = 0x07

abbrev invalid_request_id_error_code : ℕ
invalid_request_id_error_code = 0x04

pub record PeerRequestIdValidator : Type 0 where
  pub draft : DraftVersion
  pub advertised_max_request_id : ℕ
  pub next_draft16_request_id : ℕ
  pub draft18_request_ids : List ℕ

abbrev pub new : DraftVersion → ℕ → PeerRequestIdValidator
new draft advertised_max_request_id = record {
  draft = draft;
  advertised_max_request_id = advertised_max_request_id;
  next_draft16_request_id = 1;
  draft18_request_ids = [];
}

-- The last two checks.
unfoldable pub validate_next : PeerRequestIdValidator → ℕ → Reply × PeerRequestIdValidator
validate_next v request_id =
    if is_draft16 v.draft
    then (if not (request_id == v.next_draft16_request_id)
        then (
          close_session invalid_request_id_error_code "peer request id is not next in sequence",
          v,
        )
        else (goes_on, record v { next_draft16_request_id = add64 v.next_draft16_request_id 2 }))
    else if member request_id v.draft18_request_ids
    then (close_session invalid_request_id_error_code "peer request id is duplicated", v)
    else (goes_on, record v { draft18_request_ids = add request_id v.draft18_request_ids })

unfoldable pub validate : PeerRequestIdValidator → ℕ → Reply × PeerRequestIdValidator
unfolding validate_next
validate v request_id =
    if not (is_draft16 v.draft) && not (is_draft18_or_later v.draft)
    then (goes_on, v)
    else if is_draft16 v.draft && leb v.advertised_max_request_id request_id
    then (
      close_session too_many_requests_error_code "peer request id exceeds advertised maximum",
      v,
    )
    else if request_id % 2 == 0
    then (close_session invalid_request_id_error_code "peer request id has invalid parity", v)
    else validate_next v request_id
