-- ===== src/Wire/Requests.antt =====
-- The answers that refuse a request, in moqt_control_messages.cpp: REQUEST_ERROR with its redirects and
-- details, and the messages of draft 14 that it replaces. A decoder returns the message, or `none`,
-- with the recorded fault, which each of them clears first.
pub mod Decode
pub mod RoundTrip
pub mod Fuel
use moqxr.Common.{
  ℕ, zero, suc, ◌+◌, ◌-◌, ◌*◌, ◌/◌, ◌%◌, ◌^◌, ◌≤◌, ◌<◌, ◌≡◌, ◌≢◌, ◌⊎◌, inl, inr, refl, sym, ap, ◌∙◌,
  subst, Bool, true, false, not, ◌&&◌, ◌||◌, Option, none, some, List, [], ◌∷◌, ◌++◌, map, arith,
  ltb, leb, ◌==◌, if◌then◌else◌, length, get_or, take, drop, All, get_or-append, length-append,
  append-nil, append_assoc, Bool-cases, Option-cases, ◌>>=◌,
}
use moqxr.Common.Bytes.{u64_mod}
use moqxr.Draft.{
  DraftVersion, draft16, is_draft14, is_draft16, is_draft18_or_later, is_draft21_or_later,
  is_draft23_or_later,
}
use moqxr.Wire.Cursor.{fits}
use moqxr.Wire.Varint.{append_varint, decode_varint_impl}
use moqxr.Wire.Moqint.{uses_moq_vi64, push_moqint, decode_moqint_impl}
use moqxr.Wire.Control.{finish_message, append_control_length, parse_control_length_message}
use moqxr.Wire.Fields.{
  note_decode_fault, append_string, decode_track_namespace, decode_reason_phrase,
}

-- kRequestErrorType, kPublishNamespaceErrorType, kRequestErrorRedirect, kErrorDetailRedirect and
-- kFaultMalformedMessage
abbrev pub request_error_type : ℕ
request_error_type = 0x05

abbrev pub publish_namespace_error_type : ℕ
publish_namespace_error_type = 0x08

abbrev pub request_error_redirect : ℕ
request_error_redirect = 0x34

abbrev error_detail_redirect : ℕ
error_detail_redirect = 0x01

abbrev pub fault_malformed_message : ℕ
fault_malformed_message = 0x300

pub record RequestError : Type 0 where
  pub request_id : ℕ
  pub error_code : ℕ
  pub retry_interval : ℕ
  pub reason : List ℕ
  pub redirect_has_track_name : Bool

-- The request id stands in the message only before draft 17.
unfoldable pub append_request_id : List ℕ → DraftVersion → ℕ → List ℕ
append_request_id out draft request_id =
    if not (uses_moq_vi64 draft) then push_moqint out draft request_id else out

-- encode_request_error_message for the drafts after 14.
unfoldable pub encode_request_error : DraftVersion → ℕ → ℕ → ℕ → List ℕ → List ℕ
encode_request_error draft request_id error_code retry_interval reason =
    let payload =
      append_string
        (push_moqint (push_moqint (append_request_id [] draft request_id) draft error_code) draft
          retry_interval)
        draft reason in
    finish_message draft request_error_type payload

-- The same in the integers of draft 16, whose drafts have no retry interval.
unfoldable pub encode_subscribe_error_message : ℕ → ℕ → List ℕ → List ℕ
encode_subscribe_error_message request_id error_code reason =
    finish_message draft16 request_error_type (
      append_string (push_moqint (push_moqint [] draft16 request_id) draft16 error_code) draft16
        reason)

unfoldable pub encode_request_error_message : DraftVersion → ℕ → ℕ → ℕ → List ℕ → List ℕ
encode_request_error_message draft request_id error_code retry_interval reason =
    if is_draft14 draft
    then encode_subscribe_error_message request_id error_code reason
    else encode_request_error draft request_id error_code retry_interval reason

-- The cursor behind the redirect and whether it has a track name. `end` is where its span ends.
unfoldable pub decode_redirect_name : List ℕ → ℕ → ℕ → DraftVersion → Bool → Option (ℕ × Bool)
decode_redirect_name bytes offset end draft require_empty_track_name =
    elim (decode_moqint_impl (take end bytes) offset draft) [
      | none ↦ none
      | some (track_name_length, offset') ↦
          if not (fits offset' track_name_length end)
            || (require_empty_track_name && not (track_name_length == 0))
          then none
          else some (offset' + track_name_length, not (track_name_length == 0))
    ]

unfoldable pub decode_redirect : List ℕ → ℕ → ℕ → DraftVersion → Bool → ℕ → Option (ℕ × Bool) × ℕ
decode_redirect bytes offset end draft require_empty_track_name fault =
    elim (decode_moqint_impl (take end bytes) offset draft) [
      | none ↦ (none, fault)
      | some (connect_uri_length, offset') ↦
          if not (fits offset' connect_uri_length end)
          then (none, fault)
          else let (name_space, fault') =
              decode_track_namespace (take end bytes) (offset' + connect_uri_length) draft fault in
            elim name_space [
              | none ↦ (none, fault')
              | some (fields, offset'') ↦
                  (decode_redirect_name bytes offset'' end draft require_empty_track_name, fault')
            ]
    ]

-- One Key-Value-Pair of the details: the cursor behind it, its type, and, for a redirect, whether it
-- has a track name.
unfoldable pub decode_detail :
    List ℕ → ℕ → ℕ → DraftVersion → ℕ → Option Bool → ℕ → Option (ℕ × ℕ × Option Bool) × ℕ
decode_detail bytes offset end draft type redirect fault =
    elim (decode_moqint_impl (take end bytes) offset draft) [
      | none ↦ (none, fault)
      | some (delta, offset1) ↦
          if ltb (u64_mod - 1 - type) delta
          then (none, fault)
          else elim (decode_moqint_impl (take end bytes) offset1 draft) [
            | none ↦ (none, fault)
            | some (size, offset2) ↦
                if ((type + delta) % 2) == 0
                then (some (offset2, type + delta, redirect), fault)
                else if ltb 65535 size || not (fits offset2 size end)
                then (none, fault)
                else if not ((type + delta) == error_detail_redirect)
                then (some (offset2 + size, type + delta, redirect), fault)
                else elim redirect [
                  | some seen ↦ (none, fault)
                  | none ↦
                      let (found, fault') =
                        decode_redirect bytes offset2 (offset2 + size) draft false fault in
                      (
                        elim found [
                          | none ↦ none
                          | some (offset3, named) ↦
                              if offset3 == (offset2 + size)
                              then some (offset3, type + delta, some named)
                              else none
                        ],
                        fault',
                      )
                ]
          ]
    ]
