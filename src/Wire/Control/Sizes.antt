-- ===== src/Wire/Control/Sizes.antt =====
-- The sizes that next_control_message of moqt_control_messages.cpp reports on any buffer.
use moqxr.Common.{
  ℕ, ◌+◌, ◌-◌, ◌^◌, ◌≤◌, ◌<◌, ◌≡◌, ◌⊎◌, inl, inr, refl, false, some, List, [], ◌++◌, arith, length,
  All, length-append, append_assoc, Bool-cases, Option-cases,
}
use moqxr.Common.Bytes.{IsByte, IsU64, u64_mod}
use moqxr.Draft.{DraftVersion, draft17, is_draft17, is_draft18_or_later}
use moqxr.Wire.Cursor.{fits}
use moqxr.Wire.Moqint.{decode_moqint_impl, moqint_limit}
use moqxr.Wire.Moqint.RoundTrip.{
  moqint_bytes, Stands, Stands-next, decode_moqint-Stands, decode_moqint_takes, moqint_bytes_size,
}
use moqxr.Wire.Control.{
  read_control_length, next_control_message, Framing, varint_length, subscribe_namespace, framing,
  size_by_type, size_by_uint16, size_by_moqint, size_by_length,
}
use moqxr.Wire.Control.Lengths.{read_control_length_takes}

abbrev Within : List ℕ → ℕ → ℕ → Type 0
Within bytes offset size = (offset ≤ size) × (size ≤ length bytes)

size_by_uint16-Within :
    (bytes : List ℕ) (offset size : ℕ)
    → size_by_uint16 bytes offset ≡ some size
    → Within bytes offset size
unfolding size_by_uint16
size_by_uint16-Within bytes offset size e = ground arith

-- Below draft 17 an integer is less than 2^62, so the sum cannot wrap.
size_by_moqint-Within :
    (draft : DraftVersion) (bytes : List ℕ) (offset size : ℕ)
    → moqint_limit draft ≡ 2 ^ 62
    → length bytes < 2 ^ 62
    → All IsByte bytes
    → size_by_moqint bytes offset draft ≡ some size
    → Within bytes offset size
unfolding size_by_moqint
size_by_moqint-Within draft bytes offset size lim small h e =
    elim (Option-cases (decode_moqint_impl bytes offset draft)) [
      | inl fails ↦ ground (arith, fails)
      | inr ((n, next), reads) ↦
          ground (arith, reads, decode_moqint_takes draft bytes offset n next h reads)
    ]

size_by_type-Within :
    (frame : Framing) (draft : DraftVersion) (bytes : List ℕ) (offset size : ℕ)
    → moqint_limit draft ≡ 2 ^ 62
    → length bytes < 2 ^ 62
    → All IsByte bytes
    → size_by_type frame bytes offset draft ≡ some size
    → Within bytes offset size
unfolding size_by_type
size_by_type-Within frame draft bytes offset size lim small h e = ground (
  arith,
  size_by_uint16-Within bytes offset size,
  size_by_moqint-Within draft bytes offset size lim small h,
)

old_limit :
    (draft : DraftVersion)
    → is_draft17 draft ≡ false
    → is_draft18_or_later draft ≡ false
    → moqint_limit draft ≡ 2 ^ 62
old_limit draft not17 old = ground arith

size_by_length-Within :
    (draft : DraftVersion) (bytes : List ℕ) (offset size : ℕ)
    → All IsByte bytes
    → size_by_length bytes offset draft ≡ some size
    → Within bytes offset size
unfolding size_by_length fits
size_by_length-Within draft bytes offset size h e =
    elim (Option-cases (read_control_length bytes offset draft)) [
      | inl fails ↦ ground (arith, fails)
      | inr ((n, next), reads) ↦
          ground (arith, reads, read_control_length_takes draft bytes offset n next h reads)
    ]

-- For every draft but 17, on a buffer of fewer than 2^62 bytes: a size that next_control_message
-- reports is positive and at most the number of bytes in the buffer.
pub next_control_message_bounds :
    (draft : DraftVersion) (bytes : List ℕ) (size : ℕ)
    → is_draft17 draft ≡ false
    → length bytes < 2 ^ 62
    → All IsByte bytes
    → next_control_message bytes draft ≡ some size
    → (0 < size) × (size ≤ length bytes)
unfolding next_control_message
next_control_message_bounds draft bytes size not17 small h e =
    elim (Option-cases (decode_moqint_impl bytes 0 draft)) [
      | inl fails ↦ ground (arith, fails)
      | inr ((type, next), reads) ↦ elim (Bool-cases (is_draft18_or_later draft)) [
        | inl late ↦ ground (
          arith,
          decode_moqint_takes draft bytes 0 type next h reads,
          size_by_length-Within draft bytes next size h,
        )
        | inr old ↦ ground (
          arith,
          decode_moqint_takes draft bytes 0 type next h reads,
          size_by_type-Within (framing type) draft bytes next size (old_limit draft not17 old) small
              h,
        )
      ]
    ]

-- A draft-17 type and length as they stand at the front of a message.
abbrev pub head17 : ℕ → ℕ → List ℕ
head17 type payload_length = moqint_bytes draft17 type ++ moqint_bytes draft17 payload_length

-- For draft 17, a type that is framed by a plain integer length, and a 64-bit length with which
-- the sum of the header's size and the length reaches 2^64: next_control_message does report a
-- message, and its size is the wrapped sum, which is less than the size of the header alone.
pub next_control_message_wraps :
    (type payload_length : ℕ) (rest : List ℕ)
    → (framing type ≡ varint_length) ⊎ (framing type ≡ subscribe_namespace)
    → IsU64 type
    → IsU64 payload_length
    → u64_mod ≤ length (head17 type payload_length) + payload_length
    → (next_control_message (head17 type payload_length ++ rest) draft17
        ≡ some (length (head17 type payload_length) + payload_length - u64_mod))
      × (length (head17 type payload_length) + payload_length - u64_mod
          < length (head17 type payload_length))
unfolding next_control_message size_by_type size_by_moqint
next_control_message_wraps type n rest frame u64 u64' wraps =
    let whole = append_assoc (moqint_bytes draft17 type) (moqint_bytes draft17 n) rest in
    let bytes = head17 type n ++ rest in
    let at_type : Stands bytes 0 (moqint_bytes draft17 type ++ (moqint_bytes draft17 n ++ rest)) =
      ([], whole, refl) in
    (
      ground (
        arith,
        decode_moqint-Stands draft17 bytes 0 type (moqint_bytes draft17 n ++ rest) u64 at_type,
        decode_moqint-Stands draft17 bytes (0 + length (moqint_bytes draft17 type)) n rest u64' (
            Stands-next bytes 0 (moqint_bytes draft17 type) (moqint_bytes draft17 n ++ rest)
              at_type),
        length-append (moqint_bytes draft17 type) (moqint_bytes draft17 n),
        length-append (head17 type n) rest,
        moqint_bytes_size draft17 type,
        moqint_bytes_size draft17 n,
      ),
      omega (arith, u64', wraps),
    )
