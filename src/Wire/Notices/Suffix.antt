-- ===== src/Wire/Notices/Suffix.antt =====
-- encode_namespace_notification of moqt_control_messages.cpp and the suffix in its payload.
use moqxr.Common.{
  ℕ, ◌+◌, ◌*◌, ◌≤◌, ◌<◌, ◌≡◌, sym, ap, true, some, List, [], ◌∷◌, ◌++◌, arith, if◌then◌else◌,
  length, length-append, append-nil, append_assoc,
}
use moqxr.Draft.{DraftVersion, is_draft18_or_later, is_draft22_or_later, is_draft23_or_later}
use moqxr.Wire.Moqint.{moqint_limit}
use moqxr.Wire.Moqint.RoundTrip.{moqint_bytes, moqint_bytes_size, push_moqint-eq}
use moqxr.Wire.Control.{finish_message, parse_control_length_message}
use moqxr.Wire.Control.Splitting.{header, parse-finish_message}
use moqxr.Wire.Fields.{decode_track_namespace}
use moqxr.Wire.Fields.Strings.{string_bytes, string_size, append_string-eq}
use moqxr.Wire.Fields.Namespaces.{FieldsFit, CountFits, fields_bytes, namespace-Stands}
use moqxr.Wire.Notices.RoundTrip.{payload-Stands}
use moqxr.Wire.Notices.{namespace_type, append_suffix, encode_namespace_notification}

-- The bytes of the fields of a suffix.
fields_size :
    (draft : DraftVersion) (n : ℕ) (ps : List (List ℕ))
    → is_draft18_or_later draft ≡ true
    → n ≤ 4096
    → FieldsFit draft n ps
    → length (fields_bytes draft ps) + n ≤ 9 * length ps + 4096
unfolding fields_bytes
fields_size draft n [] late h f = omega (arith, h)
fields_size draft n (p ∷ ps) late h f = ground (
  arith,
  f.1,
  string_size draft p,
  length-append (string_bytes draft p) (fields_bytes draft ps),
  fields_size draft (n + length p) ps late,
  f.2,
)

suffix-eq :
    (draft : DraftVersion) (n : ℕ) (ps : List (List ℕ)) (out : List ℕ)
    → is_draft18_or_later draft ≡ true
    → n ≤ 4096
    → FieldsFit draft n ps
    → append_suffix out draft n ps ≡ some (out ++ fields_bytes draft ps)
unfolding append_suffix fields_bytes
suffix-eq draft n [] out late h f = ap some (sym (append-nil out))
suffix-eq draft n ([] ∷ ps) out late h f = ground (arith, late, f.1)
suffix-eq draft n ((c ∷ cs) ∷ ps) out late h f =
    let p = c ∷ cs in
    ground (
      arith,
      f.0,
      f.1,
      append_string-eq out draft p,
      append_assoc out (string_bytes draft p) (fields_bytes draft ps),
      suffix-eq draft (n + length p) ps (out ++ string_bytes draft p) late,
      f.2,
    )

module _ (draft : DraftVersion) (suffix : List (List ℕ)) (late : is_draft22_or_later draft ≡ true)
    (few : length suffix ≤ 32) (f : FieldsFit draft 0 suffix) where
  parameters : List ℕ
  parameters = if is_draft23_or_later draft then moqint_bytes draft 0 else []

  payload : List ℕ
  payload = moqint_bytes draft (length suffix) ++ (fields_bytes draft suffix ++ parameters)

  modern : is_draft18_or_later draft ≡ true
  modern = ground (arith, late)

  count_fits : CountFits draft suffix
  count_fits = (ground (arith, few), ground (arith, few))

  type_fits : namespace_type < moqint_limit draft
  type_fits = ground arith

  payload_size : length payload ≤ 65535
  unfolding payload parameters
  payload_size = ground (
    arith,
    few,
    fields_size draft 0 suffix modern (omega arith) f,
    moqint_bytes_size draft (length suffix),
    moqint_bytes_size draft 0,
    length-append (fields_bytes draft suffix) parameters,
    length-append (moqint_bytes draft (length suffix)) (fields_bytes draft suffix ++ parameters),
  )

  encode-eq :
      encode_namespace_notification draft suffix ≡ finish_message draft namespace_type payload
  unfolding encode_namespace_notification payload parameters
  encode-eq = ground (
    arith,
    late,
    few,
    push_moqint-eq draft [] (length suffix) count_fits.0,
    suffix-eq draft 0 suffix (moqint_bytes draft (length suffix)) modern (omega arith) f,
    push_moqint-eq draft (moqint_bytes draft (length suffix) ++ fields_bytes draft suffix) 0,
    append_assoc (moqint_bytes draft (length suffix)) (fields_bytes draft suffix)
        (moqint_bytes draft 0),
    append-nil (fields_bytes draft suffix),
  )

  start : ℕ
  start = length (header draft namespace_type payload type_fits payload_size)

  -- From draft 22 on, a suffix of at most 32 fields, each not empty and all of at most 4096 bytes, is
  -- written by encode_namespace_notification as a message that is accepted under its type, and
  -- decode_track_namespace reads the suffix at its payload.
  pub decode-encode_namespace_notification :
      (payload_offset : ℕ) × (payload_length : ℕ) × (end : ℕ) × (parse_control_length_message
          (encode_namespace_notification draft suffix)
          draft
          namespace_type
        ≡ some (payload_offset, payload_length))
      × (decode_track_namespace (encode_namespace_notification draft suffix) payload_offset draft 0
          ≡ (some (suffix, end), 0))
  unfolding start
  decode-encode_namespace_notification = (
    start,
    length payload,
    start + length (moqint_bytes draft (length suffix) ++ fields_bytes draft suffix),
    rw encode-eq (parse-finish_message draft namespace_type payload type_fits payload_size).0,
    rw encode-eq (
        namespace-Stands draft (finish_message draft namespace_type payload) parameters 0 suffix
          start count_fits f
          (unfold payload in payload-Stands draft namespace_type payload type_fits payload_size)),
  )
