-- ===== src/Wire/Notices.antt =====
-- The notices of draft 22 in moqt_control_messages.cpp: GOAWAY, which is only read, and the
-- notification of a namespace, which is only written.
pub mod RoundTrip
pub mod Suffix
use moqxr.Common.{
  ℕ, zero, suc, ◌+◌, ◌-◌, ◌*◌, ◌/◌, ◌%◌, ◌^◌, ◌≤◌, ◌<◌, ◌≡◌, ◌≢◌, ◌⊎◌, inl, inr, refl, sym, ap, ◌∙◌,
  subst, Bool, true, false, not, ◌&&◌, ◌||◌, Option, none, some, List, [], ◌∷◌, ◌++◌, map, arith,
  ltb, leb, ◌==◌, if◌then◌else◌, length, get_or, take, drop, All, get_or-append, length-append,
  append-nil, append_assoc, Bool-cases, Option-cases, ◌>>=◌,
}
use moqxr.Common.Bytes.{sub64}
use moqxr.Draft.{DraftVersion, is_draft22_or_later, is_draft23_or_later}
use moqxr.Wire.Cursor.{fits}
use moqxr.Wire.Moqint.{push_moqint, decode_moqint_impl}
use moqxr.Wire.Control.{finish_message, parse_control_length_message}
use moqxr.Wire.Fields.{note_decode_fault, append_string, fault_field_length_exceeded}

abbrev pub goaway_type : ℕ
goaway_type = 0x10

abbrev pub namespace_type : ℕ
namespace_type = 0x08

pub record GoawayMessage : Type 0 where
  pub new_session_uri : List ℕ
  pub timeout_ms : ℕ

-- What follows the length of the URI.
unfoldable pub decode_goaway_body : List ℕ → ℕ → ℕ → DraftVersion → Option GoawayMessage
decode_goaway_body bytes offset uri_length draft =
    if not (fits offset uri_length (length bytes))
    then none
    else elim (decode_moqint_impl bytes (offset + uri_length) draft) [
      | none ↦ none
      | some (timeout_ms, offset') ↦
          if offset' == length bytes
          then some (record {
            new_session_uri = take uri_length (drop offset bytes);
            timeout_ms = timeout_ms;
          })
          else none
    ]

unfoldable pub decode_goaway_uri : List ℕ → ℕ → DraftVersion → Option GoawayMessage × ℕ
decode_goaway_uri bytes offset draft = elim (decode_moqint_impl bytes offset draft) [
  | none ↦ (none, 0)
  | some (uri_length, offset') ↦
      if ltb 8192 uri_length
      then (none, note_decode_fault draft fault_field_length_exceeded 0)
      else (decode_goaway_body bytes offset' uri_length draft, 0)
]

unfoldable pub decode_goaway_message : List ℕ → DraftVersion → Option GoawayMessage × ℕ
decode_goaway_message bytes draft =
    if not (is_draft22_or_later draft)
    then (none, 0)
    else elim (parse_control_length_message bytes draft goaway_type) [
      | none ↦ (none, 0)
      | some (payload_offset, payload_length) ↦ decode_goaway_uri bytes payload_offset draft
    ]

abbrev pub is_empty : List ℕ → Bool
is_empty [] = true
is_empty (c ∷ cs) = false

-- The loop over the fields, with the buffer so far; `none` where a field is refused.
unfoldable pub append_suffix : List ℕ → DraftVersion → ℕ → List (List ℕ) → Option (List ℕ)
append_suffix out draft namespace_length [] = some out
append_suffix out draft namespace_length (field ∷ fields) =
    if is_empty field || ltb (sub64 4096 namespace_length) (length field)
    then none
    else append_suffix (append_string out draft field) draft (namespace_length + length field)
        fields

unfoldable pub encode_namespace_notification : DraftVersion → List (List ℕ) → List ℕ
encode_namespace_notification draft suffix =
    if not (is_draft22_or_later draft) || ltb 32 (length suffix)
    then []
    else elim (append_suffix (push_moqint [] draft (length suffix)) draft 0 suffix) [
      | none ↦ []
      | some payload ↦
          finish_message draft namespace_type
            (if is_draft23_or_later draft then push_moqint payload draft 0 else payload)
    ]
