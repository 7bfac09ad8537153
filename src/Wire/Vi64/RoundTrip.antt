-- ===== src/Wire/Vi64/RoundTrip.antt =====
-- append_vi64 and decode_vi64_impl against each other.
use moqxr.Common.{
  ℕ, ◌+◌, ◌-◌, ◌≤◌, ◌≡◌, some, List, ◌++◌, arith, length, get_or, get_or-append, length-append,
  append_assoc,
}
use moqxr.Common.Bytes.{IsU64, low_bits}
use moqxr.Wire.Cursor.{accumulate-append}
use moqxr.Wire.Vi64.{vi64_bytes, append_vi64, vi64_prefix, decode_vi64_impl}

pub decode_vi64_bytes :
    (v : ℕ) (rest : List ℕ)
    → IsU64 v
    → decode_vi64_impl (vi64_bytes v ++ rest) 0 ≡ some (v, length (vi64_bytes v))
unfolding decode_vi64_impl vi64_prefix vi64_bytes
decode_vi64_bytes v rest h = ground arith

pub decode_vi64-append :
    (out xs : List ℕ) (v n : ℕ)
    → decode_vi64_impl xs 0 ≡ some (v, n)
    → decode_vi64_impl (out ++ xs) (length out) ≡ some (v, length out + n)
unfolding decode_vi64_impl
decode_vi64-append out xs v n h =
    let kept = vi64_prefix (get_or xs 0 0) in
    ground (
      arith,
      length-append out xs,
      get_or-append out xs 0 0,
      accumulate-append (kept.0 - 1) out xs 1 (low_bits (get_or xs 0 0) kept.1),
    )

-- Every 64-bit value that append_vi64 writes behind any bytes is read back by decode_vi64_impl at
-- that place, whatever follows, with the cursor behind it.
pub decode-append_vi64 :
    (out rest : List ℕ) (v : ℕ)
    → IsU64 v
    → decode_vi64_impl (append_vi64 out v ++ rest) (length out)
      ≡ some (v, length (append_vi64 out v))
unfolding append_vi64
decode-append_vi64 out rest v h =
    rw (append_assoc, length-append)
      (decode_vi64-append out (vi64_bytes v ++ rest) v _ (decode_vi64_bytes v rest h))

pub vi64_bytes_size : (v : ℕ) → (1 ≤ length (vi64_bytes v)) × (length (vi64_bytes v) ≤ 9)
unfolding vi64_bytes
vi64_bytes_size v = ground arith
