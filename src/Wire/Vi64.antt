-- ===== src/Wire/Vi64.antt =====
-- The MOQT 64-bit integer of moqt_control_messages.cpp (append_vi64 and decode_vi64_impl): the
-- number of leading one bits of the first byte is the number of bytes that follow.
pub mod RoundTrip
pub mod Bounds
pub mod Prefixes
use moqxr.Common.{
  ℕ, zero, suc, ◌+◌, ◌-◌, ◌*◌, ◌/◌, ◌%◌, ◌^◌, ◌≤◌, ◌<◌, ◌≡◌, refl, Bool, ◌&&◌, Option, none, some,
  List, [], ◌∷◌, ◌++◌, arith, ltb, leb, ◌==◌, if◌then◌else◌, length, get_or,
}
use moqxr.Common.Bytes.{shr, low_bits, high_bits, u64_mod}
use moqxr.Wire.Cursor.{fits, accumulate}

-- for (shift = 8 * (rounds - 1); shift >= 0; shift -= 8) push (value >> shift) & 0xff
unfoldable pub big_endian : ℕ → ℕ → List ℕ
big_endian zero value = []
big_endian (suc k) value = low_bits (shr value (8 * k)) 8 ∷ big_endian k value

-- What append_vi64 pushes behind the bytes that are there; the call itself cannot fail.
unfoldable pub vi64_bytes : ℕ → List ℕ
unfolding big_endian
vi64_bytes value =
    if leb value 127
    then value ∷ []
    else if leb value 16383
    then (0x80 + low_bits (shr value 8) 6) ∷ low_bits value 8 ∷ []
    else if leb value 2097151
    then (0xc0 + low_bits (shr value 16) 5) ∷ low_bits (shr value 8) 8 ∷ low_bits value 8 ∷ []
    else if leb value 268435455
    then (0xe0 + low_bits (shr value 24) 4)
      ∷ low_bits (shr value 16) 8
      ∷ low_bits (shr value 8) 8
      ∷ low_bits value 8
      ∷ []
    else if leb value 34359738367
    then (0xf0 + low_bits (shr value 32) 3)
      ∷ low_bits (shr value 24) 8
      ∷ low_bits (shr value 16) 8
      ∷ low_bits (shr value 8) 8
      ∷ low_bits value 8
      ∷ []
    else if leb value 4398046511103
    then (0xf8 + low_bits (shr value 40) 2)
      ∷ low_bits (shr value 32) 8
      ∷ low_bits (shr value 24) 8
      ∷ low_bits (shr value 16) 8
      ∷ low_bits (shr value 8) 8
      ∷ low_bits value 8
      ∷ []
    else if leb value 562949953421311
    then (0xfc + low_bits (shr value 48) 1)
      ∷ low_bits (shr value 40) 8
      ∷ low_bits (shr value 32) 8
      ∷ low_bits (shr value 24) 8
      ∷ low_bits (shr value 16) 8
      ∷ low_bits (shr value 8) 8
      ∷ low_bits value 8
      ∷ []
    else if leb value 72057594037927935
    then 0xfe ∷ big_endian 7 value
    else 0xff ∷ big_endian 8 value

unfoldable pub append_vi64 : List ℕ → ℕ → List ℕ
append_vi64 out value = out ++ vi64_bytes value

-- `length`, and the number of low bits that `prefix_mask` keeps, from the first byte.
unfoldable pub vi64_prefix : ℕ → ℕ × ℕ
vi64_prefix first =
    if high_bits first 7 == 0
    then (1, 7)
    else if high_bits first 6 == 0x80
    then (2, 6)
    else if high_bits first 5 == 0xc0
    then (3, 5)
    else if high_bits first 4 == 0xe0
    then (4, 4)
    else if high_bits first 3 == 0xf0
    then (5, 3)
    else if high_bits first 2 == 0xf8
    then (6, 2)
    else if high_bits first 1 == 0xfc
    then (7, 1)
    else if first == 0xfe
    then (8, 0)
    else (9, 0)

unfoldable pub decode_vi64_impl : List ℕ → ℕ → Option (ℕ × ℕ)
unfolding fits accumulate
decode_vi64_impl bytes offset =
    if leb (length bytes) offset
    then none
    else let first = get_or bytes offset 0 in
      let (size, kept) = vi64_prefix first in
      if fits offset size (length bytes)
      then some (accumulate (size - 1) bytes (offset + 1) (low_bits first kept), offset + size)
      else none
