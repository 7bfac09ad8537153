-- ===== src/Wire/Fields/Strings.antt =====
-- append_string and decode_reason_phrase of moqt_control_messages.cpp against each other, and the
-- recorded fault.
use moqxr.Common.{
  ℕ, ◌+◌, ◌≤◌, ◌<◌, ◌≡◌, ◌≢◌, refl, ap, ◌∙◌, true, not, ◌||◌, some, List, ◌++◌, arith, leb, ◌==◌,
  if◌then◌else◌, length, take, drop, length-append, append_assoc,
}
use moqxr.Common.{take-append_self, drop-append_self}
use moqxr.Draft.{DraftVersion, is_draft23_or_later}
use moqxr.Wire.Cursor.{fits}
use moqxr.Wire.Moqint.{decode_moqint_impl, moqint_limit}
use moqxr.Wire.Moqint.RoundTrip.{
  moqint_bytes, push_moqint-eq, moqint_bytes_size, Stands, Stands-next, decode_moqint-Stands,
  moqint_bytes_size,
}
use moqxr.Wire.Control.Lengths.{length-Stands}
use moqxr.Wire.Fields.{
  note_decode_fault, append_string, decode_reason_phrase, fault_delta_encoding_overflow,
  fault_field_length_exceeded,
}

unfoldable pub string_bytes : DraftVersion → List ℕ → List ℕ
string_bytes draft value = moqint_bytes draft (length value) ++ value

pub string_size :
    (draft : DraftVersion) (value : List ℕ) → length (string_bytes draft value) ≤ 9 + length value
unfolding string_bytes
string_size draft value = omega (
  arith,
  length-append (moqint_bytes draft (length value)) value,
  moqint_bytes_size draft (length value),
)

pub append_string-eq :
    (out : List ℕ) (draft : DraftVersion) (value : List ℕ)
    → length value < moqint_limit draft
    → append_string out draft value ≡ out ++ string_bytes draft value
unfolding append_string string_bytes
append_string-eq out draft value h =
    rw (push_moqint-eq draft out (length value) h)
      (append_assoc out (moqint_bytes draft (length value)) value)

module _ (draft : DraftVersion) (bytes : List ℕ) (offset : ℕ) (value rest : List ℕ)
    (encodable : length value < moqint_limit draft)
    (stands : Stands bytes offset (string_bytes draft value ++ rest)) where
  body_at : ℕ
  body_at = offset + length (moqint_bytes draft (length value))

  at_length : Stands bytes offset (moqint_bytes draft (length value) ++ (value ++ rest))
  unfolding string_bytes
  at_length =
      let (front, e, len) = stands in
      (
        front,
        e ∙ ap (◌++◌ front) (append_assoc (moqint_bytes draft (length value)) value rest),
        len,
      )

  pub string_length-Stands :
      decode_moqint_impl bytes offset draft
      ≡ some (length value, offset + length (moqint_bytes draft (length value)))
  string_length-Stands =
      decode_moqint-Stands draft bytes offset (length value) (value ++ rest) encodable at_length

  string_body-Stands :
      Stands bytes (offset + length (moqint_bytes draft (length value))) (value ++ rest)
  string_body-Stands =
      Stands-next bytes offset (moqint_bytes draft (length value)) (value ++ rest) at_length

  pub string_fits :
      fits (offset + length (moqint_bytes draft (length value))) (length value) (length bytes)
      ≡ true
  unfolding fits
  string_fits = ground (
    arith,
    length-Stands bytes (offset + length (moqint_bytes draft (length value))) (value ++ rest)
        string_body-Stands,
    length-append value rest,
  )

  pub string_value :
      take (length value) (drop (offset + length (moqint_bytes draft (length value))) bytes) ≡ value
  string_value =
      let (front, e, len) = string_body-Stands in
      rw (e, ← len, drop-append_self) (take-append_self value rest)

  pub string_end :
      offset + length (string_bytes draft value)
      ≡ offset + length (moqint_bytes draft (length value)) + length value
  unfolding string_bytes
  string_end = omega (arith, length-append (moqint_bytes draft (length value)) value)

-- A text that append_string writes behind any bytes is read back by decode_reason_phrase at that place
-- whatever follows, if its length can be encoded and, on draft 23, is at most 1024; the cursor is then
-- behind it and no fault is recorded.
decode_reason-append_string :
    (draft : DraftVersion) (out value rest : List ℕ) (fault : ℕ)
    → length value < moqint_limit draft
    → not (is_draft23_or_later draft) || leb (length value) 1024 ≡ true
    → decode_reason_phrase (append_string out draft value ++ rest) (length out) draft fault
      ≡ (some (value, length (append_string out draft value)), fault)
unfolding decode_reason_phrase
decode_reason-append_string draft out value rest fault h short =
    let bytes = append_string out draft value ++ rest in
    let whole = append_string-eq out draft value h in
    let s : Stands bytes (length out) (string_bytes draft value ++ rest) =
      (out, rw whole (append_assoc out (string_bytes draft value) rest), refl) in
    ground (
      arith,
      string_length-Stands draft bytes (length out) value rest h s,
      string_fits draft bytes (length out) value rest h s,
      string_value draft bytes (length out) value rest h s,
      string_end draft bytes (length out) value rest h s,
      ap length whole,
      length-append out (string_bytes draft value),
    )

-- The fault after two causes are noted from a clear start: drafts before 23 record none; on draft 23
-- the first stands, unless the second is one of the two codes that win.
note_decode_fault-twice :
    (draft : DraftVersion) (first second : ℕ)
    → first ≢ 0
    → note_decode_fault draft second (note_decode_fault draft first 0) ≡ (
        if is_draft23_or_later draft
        then if (second == fault_delta_encoding_overflow) || (second == fault_field_length_exceeded)
          then second
          else first
        else 0)
unfolding note_decode_fault
note_decode_fault-twice draft first second nonzero = ground arith

-- A string at the cursor is read as a reason phrase.
pub decode_reason-Stands :
    (draft : DraftVersion) (bytes : List ℕ) (offset : ℕ) (value rest : List ℕ) (fault : ℕ)
    → length value < moqint_limit draft
    → not (is_draft23_or_later draft) || leb (length value) 1024 ≡ true
    → Stands bytes offset (string_bytes draft value ++ rest)
    → decode_reason_phrase bytes offset draft fault
      ≡ (some (value, offset + length (string_bytes draft value)), fault)
unfolding decode_reason_phrase
decode_reason-Stands draft bytes offset value rest fault h short s = ground (
  arith,
  string_length-Stands draft bytes offset value rest h s,
  string_fits draft bytes offset value rest h s,
  string_value draft bytes offset value rest h s,
  string_end draft bytes offset value rest h s,
)
