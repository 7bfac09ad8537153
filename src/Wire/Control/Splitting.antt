-- ===== src/Wire/Control/Splitting.antt =====
-- Messages of finish_message against parse_control_length_message and next_control_message, all of
-- moqt_control_messages.cpp.
use moqxr.Common.{
  ℕ, ◌+◌, ◌≤◌, ◌<◌, ◌≡◌, ◌⊎◌, inl, inr, refl, ap, true, false, some, List, [], ◌++◌, arith, length,
  drop, length-append, append-nil, append_assoc, Bool-cases,
}
use moqxr.Common.{drop-append_self}
use moqxr.Draft.{DraftVersion, is_draft18_or_later}
use moqxr.Wire.Cursor.{fits}
use moqxr.Wire.Moqint.{decode_moqint_impl, moqint_limit}
use moqxr.Wire.Moqint.RoundTrip.{
  moqint_bytes, push_moqint-eq, Stands, Stands-next, decode_moqint-Stands,
}
use moqxr.Wire.Control.{
  read_control_length, default_max_control_message_size, finish_message,
  parse_control_length_message, next_control_message, uint16_length, framing, size_by_type,
  size_by_length,
}
use moqxr.Wire.Control.Lengths.{
  control_length_bytes, append_control_length-eq, read_control_length-Stands, size_by_uint16-Stands,
  length-Stands,
}

module _ (draft : DraftVersion) (type : ℕ) (payload : List ℕ)
    (encodable : type < moqint_limit draft)
    (short : length payload ≤ default_max_control_message_size) where
  pub header : List ℕ
  header = moqint_bytes draft type ++ control_length_bytes draft (length payload)

  pub finish_message-eq : finish_message draft type payload ≡ header ++ payload
  unfolding finish_message header
  finish_message-eq = ground (
    arith,
    push_moqint-eq draft [] type encodable,
    append_control_length-eq (moqint_bytes draft type) draft (length payload) short,
  )

  whole :
      (rest : List ℕ)
      → finish_message draft type payload ++ rest
        ≡ moqint_bytes draft type
          ++ (control_length_bytes draft (length payload) ++ (payload ++ rest))
  unfolding header
  whole rest = rw finish_message-eq (simp append_assoc)

  module _ (rest : List ℕ) where
    bytes : List ℕ
    bytes = finish_message draft type payload ++ rest

    at_length :
        Stands bytes
          (length (moqint_bytes draft type))
          (control_length_bytes draft (length payload) ++ (payload ++ rest))
    unfolding bytes
    at_length = (moqint_bytes draft type, whole rest, refl)

    at_payload : Stands bytes (length header) (payload ++ rest)
    unfolding header
    at_payload =
        let s = Stands-next bytes _ _ (payload ++ rest) at_length in
        (
          s.0,
          s.1,
          omega (
            arith,
            s.2,
            length-append (moqint_bytes draft type) (control_length_bytes draft (length payload)),
          ),
        )

    type_read : decode_moqint_impl bytes 0 draft ≡ some (type, length (moqint_bytes draft type))
    unfolding bytes
    type_read =
        ground (arith, decode_moqint-Stands draft bytes 0 type _ encodable ([], whole rest, refl))

    length_read :
        read_control_length bytes (length (moqint_bytes draft type)) draft
        ≡ some (length payload, length header)
    unfolding header
    length_read = ground (
      arith,
      read_control_length-Stands draft bytes (length (moqint_bytes draft type)) (length payload)
          (payload ++ rest) short at_length,
      length-append (moqint_bytes draft type) (control_length_bytes draft (length payload)),
    )

    size : length bytes ≡ length header + length payload + length rest
    size = omega (arith, length-Stands bytes _ _ at_payload, length-append payload rest)

  size_alone : length (finish_message draft type payload) ≡ length header + length payload
  size_alone = omega (arith, ap length finish_message-eq, length-append header payload)

  -- A message that finish_message wrote, with an encodable type and a payload of at most 65535 bytes,
  -- is accepted under its own type, and the payload that the parser points at is the one written.
  pub parse-finish_message :
      (parse_control_length_message (finish_message draft type payload) draft type
        ≡ some (length header, length payload))
      × (drop (length header) (finish_message draft type payload) ≡ payload)
  unfolding parse_control_length_message bytes fits
  parse-finish_message = (
    ground (arith, nothing, type_read [], length_read [], size []),
    rw (finish_message-eq) (drop-append_self header payload),
  )
    where
      nothing : finish_message draft type payload ++ [] ≡ finish_message draft type payload
      nothing = append-nil _

  header_size :
      is_draft18_or_later draft ≡ false → length header ≡ length (moqint_bytes draft type) + 2
  unfolding header
  header_size old = omega (
    arith,
    size_by_uint16-Stands draft (bytes []) _ payload [] old short (at_length []),
    length-append (moqint_bytes draft type) (control_length_bytes draft (length payload)),
  )

  -- A message that finish_message wrote, with an encodable type and a payload of at most 65535
  -- bytes, is cut out of a buffer exactly, whatever follows it: from draft 18 on for every type,
  -- before draft 18 for the types that are framed by a 16-bit length.
  pub next-finish_message :
      (rest : List ℕ)
      → (is_draft18_or_later draft ≡ true) ⊎ (framing type ≡ uint16_length)
      → next_control_message (finish_message draft type payload ++ rest) draft
        ≡ some (length (finish_message draft type payload))
  unfolding next_control_message size_by_length size_by_type bytes
  next-finish_message rest (inl late) =
      ground (arith, late, type_read rest, length_read rest, size rest, size_alone)
  next-finish_message rest (inr early) = elim (Bool-cases (is_draft18_or_later draft)) [
    | inl late ↦ ground (arith, late, type_read rest, length_read rest, size rest, size_alone)
    | inr old ↦ ground (
      arith,
      old,
      type_read rest,
      size_alone,
      header_size old,
      size_by_uint16-Stands draft (bytes rest) (length (moqint_bytes draft type)) payload rest old
          short (at_length rest),
    )
  ]
