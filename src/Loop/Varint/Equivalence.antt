-- ===== src/Loop/Varint/Equivalence.antt =====
-- The integers of LOCMAF objects (src/loop_timestamps.cpp) are the 64-bit integers of the wire
-- (src/transport/moqt_control_messages.cpp), which another pair of functions writes and reads.
use moqxr.Common.{
  ℕ, ◌%◌, ◌^◌, true, ◌&&◌, ◌-◌, ◌≡◌, refl, false, inl, inr, Bool-cases, sym, List, [], arith, ltb,
  leb, ◌==◌, if◌then◌else◌, length, get_or, All,
}
use moqxr.Common.Bytes.{IsByte, IsU64, low_bits, all_below, all_below_sound}
use moqxr.Wire.Cursor.{get_or-IsByte, fits}
use moqxr.Wire.Vi64.{vi64_bytes, append_vi64, vi64_prefix, decode_vi64_impl}
use moqxr.Loop.Varint.{count_prefix, read_locmaf_varint, varint_size, locmaf_varint}

-- The size and the bits of the first byte that both readers keep.
prefix_table :
    all_below 256 (λ first.
      count_prefix 8 1 first == (vi64_prefix first).0
      && (if ltb (count_prefix 8 1 first) 9 then first % 2 ^ (8 - count_prefix 8 1 first) else 0)
        == low_bits first (vi64_prefix first).1)
    ≡ true
unfolding all_below count_prefix vi64_prefix
prefix_table = refl

-- The source's thresholds, one for each size.
abbrev vi64_size : ℕ → ℕ
vi64_size v =
    if leb v 127
    then 1
    else if leb v 16383
    then 2
    else if leb v 2097151
    then 3
    else if leb v 268435455
    then 4
    else if leb v 34359738367
    then 5
    else if leb v 4398046511103
    then 6
    else if leb v 562949953421311
    then 7
    else if leb v 72057594037927935
    then 8
    else 9

size-eq : (v : ℕ) → varint_size 8 1 v ≡ vi64_size v
unfolding varint_size
size-eq v = ground arith

prefix-eq :
    (first : ℕ)
    → IsByte first
    → let size = (vi64_prefix first).0 in
      (count_prefix 8 1 first ≡ size)
      × ((if ltb size 9 then first % 2 ^ (8 - size) else 0) ≡ low_bits first (vi64_prefix first).1)
prefix-eq first h =
    let row = all_below_sound 256 _ first prefix_table h in
    let size : count_prefix 8 1 first ≡ (vi64_prefix first).0 = ground (arith, row) in
    (size, rw (sym size) (ground (arith, row)))

pub writes-eq : (value : ℕ) → IsU64 value → locmaf_varint value ≡ vi64_bytes value
unfolding locmaf_varint vi64_bytes
writes-eq value h = rw (size-eq value) (ground arith)

fits-eq :
    (cursor size end : ℕ)
    → leb end cursor ≡ false
    → fits cursor size end ≡ (if ltb (end - cursor) size then false else true)
unfolding fits
fits-eq cursor size end h = ground arith

pub reads-eq :
    (bytes : List ℕ) (cursor : ℕ)
    → All IsByte bytes
    → read_locmaf_varint bytes cursor ≡ decode_vi64_impl bytes cursor
unfolding read_locmaf_varint decode_vi64_impl
reads-eq bytes cursor h =
    let (size, kept) = prefix-eq (get_or bytes cursor 0) (get_or-IsByte bytes cursor h) in
    let n = (vi64_prefix (get_or bytes cursor 0)).0 in
    elim (Bool-cases (leb (length bytes) cursor)) [
      | inl past ↦ rw past
      | inr here ↦ elim (Bool-cases (ltb (length bytes - cursor) n)) [
        | inl short ↦ rw (here, size, fits-eq cursor n (length bytes) here, short)
        | inr room ↦ rw (here, size, kept, fits-eq cursor n (length bytes) here, room)
      ]
    ]

-- The two functions for the integers of LOCMAF objects do what the functions of the wire do: a
-- 64-bit value is written as the same bytes, and on any bytes the same value is read at every
-- cursor, with the same cursor behind it, or none is.
pub locmaf_varint-vi64 :
    (value : ℕ) (bytes : List ℕ) (cursor : ℕ)
    → IsU64 value
    → All IsByte bytes
    → (locmaf_varint value ≡ append_vi64 [] value)
      × (read_locmaf_varint bytes cursor ≡ decode_vi64_impl bytes cursor)
unfolding append_vi64
locmaf_varint-vi64 value bytes cursor u h = (writes-eq value u, reads-eq bytes cursor h)
