-- ===== src/Wire/Control.antt =====
-- The framing of control messages in moqt_control_messages.cpp: a type, a length and a body.
-- size_t and uint64_t are both 64-bit words; a sum that the source does not guard wraps.
pub mod Lengths
pub mod Splitting
pub mod Sizes
use moqxr.Common.{
  ℕ, zero, suc, ◌+◌, ◌-◌, ◌*◌, ◌/◌, ◌%◌, ◌^◌, ◌≤◌, ◌<◌, ◌≡◌, ◌≢◌, ◌⊎◌, inl, inr, refl, sym, ap, ◌∙◌,
  Bool, true, false, not, ◌&&◌, ◌||◌, Option, none, some, List, [], ◌∷◌, ◌++◌, map, arith, ltb, leb,
  ◌==◌, if◌then◌else◌, length, get_or, take, drop, All, get_or-append, length-append, append-nil,
  append_assoc, Bool-cases, Option-cases, ◌>>=◌,
}
use moqxr.Common.Bytes.{low_bits, shr, u64_mod}
use moqxr.Draft.{DraftVersion, is_draft14, is_draft16, is_draft18_or_later, is_draft23_or_later}
use moqxr.Wire.Cursor.{fits}
use moqxr.Wire.Moqint.{append_moqint, push_moqint, decode_moqint_impl}

-- kDefaultMaxControlMessageSize
abbrev pub default_max_control_message_size : ℕ
default_max_control_message_size = 65535

unfoldable pub append_uint16 : List ℕ → ℕ → List ℕ
append_uint16 out value = out ++ low_bits (shr value 8) 8 ∷ low_bits value 8 ∷ []

unfoldable pub append_control_length : List ℕ → DraftVersion → ℕ → Option (List ℕ)
unfolding append_uint16
append_control_length out draft length =
    if ltb default_max_control_message_size length
    then none
    else if is_draft23_or_later draft
    then append_moqint out draft length
    else some (append_uint16 out (low_bits length 16))

-- (bytes[offset] << 8) | bytes[offset + 1]
abbrev pub read_uint16 : List ℕ → ℕ → ℕ
read_uint16 bytes offset = get_or bytes offset 0 * 256 + get_or bytes (offset + 1) 0

-- The length and the cursor behind it.
unfoldable pub read_control_length : List ℕ → ℕ → DraftVersion → Option (ℕ × ℕ)
unfolding fits
read_control_length bytes offset draft =
    if is_draft23_or_later draft
    then elim (decode_moqint_impl bytes offset draft) [
      | none ↦ none
      | some (value, offset') ↦ if ltb (u64_mod - 1) value then none else some (value, offset')
    ]
    else if fits offset 2 (length bytes)
    then some (read_uint16 bytes offset, offset + 2)
    else none

-- The payload's offset and length, of a message that is the whole span and has the expected type.
unfoldable pub parse_control_length_message : List ℕ → DraftVersion → ℕ → Option (ℕ × ℕ)
unfolding fits
parse_control_length_message bytes draft expected_type = do
  (type, offset) ← decode_moqint_impl bytes 0 draft
  (payload_length, payload_offset) ←
      if type == expected_type then read_control_length bytes offset draft else none
  if fits payload_offset payload_length (length bytes)
        && (payload_offset + payload_length) == length bytes
      then some (payload_offset, payload_length)
      else none

unfoldable pub parse_varint_length_message : List ℕ → DraftVersion → ℕ → Option (ℕ × ℕ)
parse_varint_length_message bytes draft expected_type = do
  (type, offset) ← decode_moqint_impl bytes 0 draft
  (payload_length, payload_offset) ←
      if type == expected_type then decode_moqint_impl bytes offset draft else none
  if (payload_offset + payload_length) % u64_mod == length bytes
      then some (payload_offset, payload_length)
      else none

unfoldable pub parse_publish_family_message : List ℕ → DraftVersion → ℕ → Option (ℕ × ℕ)
parse_publish_family_message bytes draft expected_type =
    if is_draft14 draft
    then parse_varint_length_message bytes draft expected_type
    else parse_control_length_message bytes draft expected_type

unfoldable pub control_message_exceeds_limit : List ℕ → DraftVersion → Bool
control_message_exceeds_limit bytes draft =
    if not (is_draft23_or_later draft) then false else elim (decode_moqint_impl bytes 0 draft) [
      | none ↦ false
      | some (type, offset) ↦ elim (read_control_length bytes offset draft) [
        | none ↦ false
        | some (size, offset') ↦ ltb default_max_control_message_size size
      ]
    ]

-- The type, the payload's offset and its length.
unfoldable pub decode_control_message_header : List ℕ → DraftVersion → Option (ℕ × ℕ × ℕ)
unfolding fits
decode_control_message_header bytes draft = do
  (type, offset) ← decode_moqint_impl bytes 0 draft
  (payload_length, payload_offset) ← read_control_length bytes offset draft
  if fits payload_offset payload_length (length bytes)
        && (payload_offset + payload_length) == length bytes
      then some (type, payload_offset, payload_length)
      else none

-- The groups of `case` labels of next_control_message, for drafts before 18.
pub data Framing : Type 0 where
  uint16_length publish_family varint_length subscribe_namespace unknown : Framing

contains : List ℕ → ℕ → Bool
contains [] type = false
contains (t ∷ ts) type = t == type || contains ts type

abbrev uint16_types : List ℕ
uint16_types =
    0x20 ∷ 0x21 ∷ 0x2f00 ∷ 0x02 ∷ 0x03 ∷ 0x04 ∷ 0x05 ∷ 0x06 ∷ 0x07 ∷ 0x08 ∷ 0x09 ∷ 0x0e ∷ 0x0b
    ∷ 0x15 ∷ 0x50 ∷ 0x51 ∷ 0x0a ∷ 0x0d ∷ 0x10 ∷ 0x14 ∷ 0x16 ∷ 0x17 ∷ 0x18 ∷ 0x19 ∷ 0x1a ∷ []

unfoldable pub framing : ℕ → Framing
unfolding contains
framing type =
    if contains uint16_types type
    then uint16_length
    else if contains (0x1d ∷ 0x1e ∷ 0x1f ∷ []) type
    then publish_family
    else if contains (0x12 ∷ 0x13 ∷ 0x1b ∷ []) type
    then varint_length
    else if type == 0x11
    then subscribe_namespace
    else unknown

-- message_size of a message with a 16-bit length, and whether it is all there.
unfoldable pub size_by_uint16 : List ℕ → ℕ → Option ℕ
size_by_uint16 bytes offset =
    if ltb (length bytes) (offset + 2)
    then none
    else let message_size = offset + 2 + read_uint16 bytes offset in
      if leb message_size (length bytes) then some message_size else none

-- The same with an integer of the draft; this sum is not guarded.
unfoldable pub size_by_moqint : List ℕ → ℕ → DraftVersion → Option ℕ
size_by_moqint bytes offset draft = do
  (payload_length, offset') ← decode_moqint_impl bytes offset draft
  let message_size = (offset' + payload_length) % u64_mod
  if leb message_size (length bytes) then some message_size else none

unfoldable pub size_by_type : Framing → List ℕ → ℕ → DraftVersion → Option ℕ
size_by_type uint16_length bytes offset draft = size_by_uint16 bytes offset
size_by_type publish_family bytes offset draft =
    if is_draft14 draft then size_by_moqint bytes offset draft else size_by_uint16 bytes offset
size_by_type varint_length bytes offset draft = size_by_moqint bytes offset draft
size_by_type subscribe_namespace bytes offset draft =
    if is_draft16 draft then size_by_uint16 bytes offset else size_by_moqint bytes offset draft
size_by_type unknown bytes offset draft = none

-- The same by the control length of the draft; this sum is guarded by `fits`.
unfoldable pub size_by_length : List ℕ → ℕ → DraftVersion → Option ℕ
unfolding fits
size_by_length bytes offset draft = do
  (payload_length, offset') ← read_control_length bytes offset draft
  if fits offset' payload_length (length bytes) then some (offset' + payload_length) else none

-- The size of the first whole message of a buffer.
unfoldable pub next_control_message : List ℕ → DraftVersion → Option ℕ
next_control_message bytes draft = do
  (type, offset) ← decode_moqint_impl bytes 0 draft
  if is_draft18_or_later draft
      then size_by_length bytes offset draft
      else size_by_type (framing type) bytes offset draft

-- The lines that end every encoder: the type, the length and the body, or nothing where the body is
-- too long.
unfoldable pub finish_message : DraftVersion → ℕ → List ℕ → List ℕ
finish_message draft type payload =
    elim (append_control_length (push_moqint [] draft type) draft (length payload)) [
      | none ↦ []
      | some message_bytes ↦ message_bytes ++ payload
    ]
