-- ===== src/Wire/Vi64/Prefixes.antt =====
-- decode_vi64_impl (moqt_control_messages.cpp) on bytes that arrive one part after the other.
use moqxr.Common.{
  ℕ, ◌-◌, ◌≤◌, ◌≡◌, none, some, List, ◌++◌, arith, length, get_or, get_or_front, length-append,
}
use moqxr.Common.Bytes.{low_bits}
use moqxr.Wire.Cursor.{accumulate_front}
use moqxr.Wire.Vi64.{vi64_prefix, decode_vi64_impl}

vi64_prefix_size : (first : ℕ) → (1 ≤ (vi64_prefix first).0) × ((vi64_prefix first).0 ≤ 9)
unfolding vi64_prefix
vi64_prefix_size first = ground arith

-- What is read at the front of some bytes is read whatever follows them.
pub decode_vi64_front :
    (bytes rest : List ℕ) (read : ℕ × ℕ)
    → decode_vi64_impl bytes 0 ≡ some read
    → decode_vi64_impl (bytes ++ rest) 0 ≡ some read
unfolding decode_vi64_impl
decode_vi64_front bytes rest read h =
    let first = get_or bytes 0 0 in
    let kept = vi64_prefix first in
    ground (
      arith,
      length-append bytes rest,
      vi64_prefix_size first,
      get_or_front bytes rest 0 0,
      accumulate_front (kept.0 - 1) bytes rest 1 (low_bits first kept.1),
    )

-- Nine bytes are enough.
pub decode_vi64_short : (bytes : List ℕ) → decode_vi64_impl bytes 0 ≡ none → length bytes ≤ 8
unfolding decode_vi64_impl
decode_vi64_short bytes h = ground (arith, vi64_prefix_size (get_or bytes 0 0))
