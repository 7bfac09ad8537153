-- ===== src/Wire/Vi64/Bounds.antt =====
-- decode_vi64_impl on any input.
use moqxr.Common.{ℕ, ◌+◌, ◌-◌, ◌≤◌, ◌<◌, ◌≡◌, some, List, arith, length, get_or, All}
use moqxr.Common.Bytes.{IsByte, IsU64, low_bits}
use moqxr.Wire.Cursor.{get_or-IsByte, accumulate-IsU64}
use moqxr.Wire.Vi64.{vi64_prefix, decode_vi64_impl}

vi64_prefix_bounds :
    (first : ℕ) → IsByte first → (1 ≤ (vi64_prefix first).0) × ((vi64_prefix first).0 ≤ 9)
unfolding vi64_prefix
vi64_prefix_bounds first h = ground arith

pub decode_vi64_takes :
    (bytes : List ℕ) (offset v next : ℕ)
    → All IsByte bytes
    → decode_vi64_impl bytes offset ≡ some (v, next)
    → IsU64 v × (offset < next) × (next ≤ offset + 9) × (next ≤ length bytes)
unfolding decode_vi64_impl
decode_vi64_takes bytes offset v next h e =
    let first = get_or bytes offset 0 in
    let kept = vi64_prefix first in
    ground (
      arith,
      get_or-IsByte bytes offset h,
      vi64_prefix_bounds first,
      accumulate-IsU64 (kept.0 - 1) bytes (offset + 1) (low_bits first kept.1) h,
    )
