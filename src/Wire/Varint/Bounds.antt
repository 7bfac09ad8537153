-- ===== src/Wire/Varint/Bounds.antt =====
-- decode_varint_impl on any input, and encode_varint.
use moqxr.Common.{
  ℕ, zero, suc, ◌+◌, ◌-◌, ◌*◌, ◌^◌, ◌≤◌, ◌<◌, ◌≡◌, some, List, arith, length, get_or, All,
}
use moqxr.Common.Bytes.{IsByte, shr, low_bits}
use moqxr.Wire.Cursor.{get_or-IsByte, accumulate-lt}
use moqxr.Wire.Varint.{max_quic_varint_value, decode_varint_impl}

-- The size and the bound on the value for the two top bits of the first byte.
size_bound :
    (k : ℕ)
    → k < 4
    → (1 ≤ 2 ^ k) × (2 ^ k ≤ 8) × (64 * 256 ^ (2 ^ k - 1) ≤ max_quic_varint_value + 1)
size_bound zero h = omega arith
size_bound (suc zero) h = omega arith
size_bound (suc (suc zero)) h = omega arith
size_bound (suc (suc (suc zero))) h = omega arith
size_bound (suc (suc (suc (suc k)))) h = absurd (omega arith)

pub decode_varint_takes :
    (bytes : List ℕ) (offset v next : ℕ)
    → All IsByte bytes
    → decode_varint_impl bytes offset ≡ some (v, next)
    → (v ≤ max_quic_varint_value) × (offset < next) × (next ≤ offset + 8) × (next ≤ length bytes)
unfolding decode_varint_impl
decode_varint_takes bytes offset v next h e =
    let first = get_or bytes offset 0 in
    let size = 2 ^ shr first 6 in
    ground (
      arith,
      get_or-IsByte bytes offset h,
      size_bound (shr first 6),
      accumulate-lt (size - 1) bytes (offset + 1) (low_bits first 6) 64 h,
    )
