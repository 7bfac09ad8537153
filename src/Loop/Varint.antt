-- ===== src/Loop/Varint.antt =====
-- The integers of LOCMAF objects: read_locmaf_varint and locmaf_varint of src/loop_timestamps.cpp.
-- Values joined by a bit-or share no bit.
pub mod Equivalence
use moqxr.Common.{
  ℕ, zero, suc, ◌+◌, ◌-◌, ◌*◌, ◌/◌, ◌%◌, ◌^◌, Bool, Option, none, some, List, [], ◌∷◌, ltb, leb,
  ◌==◌, if◌then◌else◌, length, get_or,
}
use moqxr.Wire.Cursor.{accumulate}

-- while (length < 9 && (first & (0x80 >> (length - 1))) != 0) ++length, with 9 - length rounds.
unfoldable pub count_prefix : ℕ → ℕ → ℕ → ℕ
count_prefix zero length first = length
count_prefix (suc rounds) length first =
    let longer = count_prefix rounds (length + 1) first in
    if first / 2 ^ (8 - length) % 2 == 1 then longer else length

unfoldable pub read_locmaf_varint : List ℕ → ℕ → Option (ℕ × ℕ)
unfolding count_prefix accumulate
read_locmaf_varint bytes cursor =
    if leb (length bytes) cursor
    then none
    else let first = get_or bytes cursor 0 in
      let size = count_prefix 8 1 first in
      if ltb (length bytes - cursor) size
      then none
      else let value = if ltb size 9 then first % 2 ^ (8 - size) else 0 in
        some (accumulate (size - 1) bytes (cursor + 1) value, cursor + size)

-- while (length < 9 && value >= 1 << (7 * length)) ++length, with 9 - length rounds.
unfoldable pub varint_size : ℕ → ℕ → ℕ → ℕ
varint_size zero length value = length
varint_size (suc rounds) length value =
    let longer = varint_size rounds (length + 1) value in
    if leb (2 ^ (7 * length)) value then longer else length

-- The loop that writes the bytes from the last to the first, with those behind.
unfoldable pub store_bytes : ℕ → ℕ → List ℕ → List ℕ
store_bytes zero value out = out
store_bytes (suc i) value out = store_bytes i (value / 256) (value % 256 ∷ out)

abbrev mark_first : ℕ → List ℕ → List ℕ
mark_first size [] = []
mark_first size (first ∷ out) = (first + 0xff * 2 ^ (9 - size) % 256) ∷ out

unfoldable pub locmaf_varint : ℕ → List ℕ
unfolding varint_size store_bytes
locmaf_varint value =
    let size = varint_size 8 1 value in
    let out = store_bytes size value [] in if ltb 1 size then mark_first size out else out
