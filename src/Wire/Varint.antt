-- ===== src/Wire/Varint.antt =====
-- The QUIC variable-length integer of moqt_control_messages.cpp: append_varint, encode_varint and
-- decode_varint_impl. A decoder that fails leaves nothing its callers use: the result is `none`.
pub mod RoundTrip
pub mod Bounds
use moqxr.Common.{
  ℕ, zero, suc, ◌+◌, ◌-◌, ◌*◌, ◌/◌, ◌%◌, ◌^◌, ◌≤◌, ◌<◌, ◌≡◌, refl, Bool, ◌&&◌, Option, none, some,
  List, [], ◌∷◌, ◌++◌, arith, ltb, leb, if◌then◌else◌, length, get_or,
}
use moqxr.Wire.Cursor.{fits, accumulate}
use moqxr.Common.Bytes.{shr, low_bits, u64_mod}

-- kMaxQuicVarintValue
abbrev pub max_quic_varint_value : ℕ
max_quic_varint_value = 4611686018427387903

unfoldable pub append_varint : List ℕ → ℕ → Option (List ℕ)
append_varint out value =
    if ltb max_quic_varint_value value
    then none
    else if leb value 63
    then some (out ++ value ∷ [])
    else if leb value 16383
    then some (out ++ (0x40 + low_bits (shr value 8) 6) ∷ low_bits value 8 ∷ [])
    else if leb value 1073741823
    then some (
        out
        ++ (0x80 + low_bits (shr value 24) 6)
          ∷ low_bits (shr value 16) 8
          ∷ low_bits (shr value 8) 8
          ∷ low_bits value 8
          ∷ [])
    else some (
        out
        ++ (0xc0 + low_bits (shr value 56) 6)
          ∷ low_bits (shr value 48) 8
          ∷ low_bits (shr value 40) 8
          ∷ low_bits (shr value 32) 8
          ∷ low_bits (shr value 24) 8
          ∷ low_bits (shr value 16) 8
          ∷ low_bits (shr value 8) 8
          ∷ low_bits value 8
          ∷ [])

unfoldable pub decode_varint_impl : List ℕ → ℕ → Option (ℕ × ℕ)
unfolding fits accumulate
decode_varint_impl bytes offset =
    if leb (length bytes) offset
    then none
    else let first = get_or bytes offset 0 in
      let size = 2 ^ shr first 6 in
      if fits offset size (length bytes)
      then some (accumulate (size - 1) bytes (offset + 1) (low_bits first 6), offset + size)
      else none

-- encode_varint: an empty vector where the value has no encoding.
unfoldable pub encode_varint : ℕ → List ℕ
encode_varint value = elim (append_varint [] value) [ none ↦ [] | some bytes ↦ bytes ]
