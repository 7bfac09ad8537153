-- ===== src/Wire/Control/Lengths.antt =====
-- append_control_length and read_control_length of moqt_control_messages.cpp against each other.
use moqxr.Common.{
  ℕ, ◌+◌, ◌≤◌, ◌<◌, ◌≡◌, ap, true, false, some, List, [], ◌∷◌, ◌++◌, arith, if◌then◌else◌, length,
  get_or, All, get_or-append, length-append,
}
use moqxr.Common.Bytes.{IsByte, IsU64, low_bits, shr}
use moqxr.Draft.{
  DraftVersion, draft14, draft16, draft17, draft18, draft21, draft22, draft23, is_draft23_or_later,
  is_draft18_or_later,
}
use moqxr.Wire.Cursor.{fits, get_or-IsByte}
use moqxr.Wire.Moqint.{moqint_limit}
use moqxr.Wire.Moqint.RoundTrip.{
  moqint_bytes, append_moqint-eq, Stands, decode_moqint-Stands, decode_moqint_takes,
}
use moqxr.Wire.Control.{
  append_control_length, read_control_length, size_by_uint16, default_max_control_message_size,
  read_uint16,
}

pub control_length_bytes : DraftVersion → ℕ → List ℕ
control_length_bytes draft n =
    if is_draft23_or_later draft
    then moqint_bytes draft n
    else low_bits (shr n 8) 8 ∷ low_bits n 8 ∷ []

-- A length of up to 65535 is an integer of every draft.
small_length :
    (draft : DraftVersion) (n : ℕ) → n ≤ default_max_control_message_size → n < moqint_limit draft
small_length draft14 n h = omega arith
small_length draft16 n h = omega arith
small_length draft17 n h = omega arith
small_length draft18 n h = omega arith
small_length draft21 n h = omega arith
small_length draft22 n h = omega arith
small_length draft23 n h = omega arith

pub append_control_length-eq :
    (out : List ℕ) (draft : DraftVersion) (n : ℕ)
    → n ≤ default_max_control_message_size
    → append_control_length out draft n ≡ some (out ++ control_length_bytes draft n)
unfolding append_control_length control_length_bytes
append_control_length-eq out draft n h =
    ground (arith, append_moqint-eq draft out n (small_length draft n h))

get_or-Stands :
    (bytes : List ℕ) (offset : ℕ) (xs : List ℕ) (i : ℕ)
    → Stands bytes offset xs
    → get_or bytes (offset + i) 0 ≡ get_or xs i 0
get_or-Stands bytes offset xs i (front, e, len) = rw (e, ← len) (get_or-append front xs i 0)

pub length-Stands :
    (bytes : List ℕ) (offset : ℕ) (xs : List ℕ)
    → Stands bytes offset xs
    → length bytes ≡ offset + length xs
length-Stands bytes offset xs (front, e, len) = omega (arith, ap length e, length-append front xs)

-- The 16-bit length of the drafts before 23.
read_early :
    (bytes : List ℕ) (offset n : ℕ) (rest : List ℕ)
    → n ≤ default_max_control_message_size
    → Stands bytes offset (low_bits (shr n 8) 8 ∷ low_bits n 8 ∷ rest)
    → (fits offset 2 (length bytes) ≡ true) × (read_uint16 bytes offset ≡ n)
unfolding fits
read_early bytes offset n rest h s = ground (
  arith,
  length-Stands bytes offset _ s,
  get_or-Stands bytes offset _ 0 s,
  get_or-Stands bytes offset _ 1 s,
)

pub read_control_length-Stands :
    (draft : DraftVersion) (bytes : List ℕ) (offset n : ℕ) (rest : List ℕ)
    → n ≤ default_max_control_message_size
    → Stands bytes offset (control_length_bytes draft n ++ rest)
    → read_control_length bytes offset draft
      ≡ some (n, offset + length (control_length_bytes draft n))
unfolding read_control_length control_length_bytes
read_control_length-Stands draft23 bytes offset n rest h s =
    ground (arith, decode_moqint-Stands draft23 bytes offset n rest)
read_control_length-Stands _ bytes offset n rest h s =
    ground (arith, read_early bytes offset n rest h s)

pub read_control_length_takes :
    (draft : DraftVersion) (bytes : List ℕ) (offset n next : ℕ)
    → All IsByte bytes
    → read_control_length bytes offset draft ≡ some (n, next)
    → IsU64 n × (offset < next) × (next ≤ length bytes)
unfolding read_control_length
read_control_length_takes draft bytes offset n next h e = ground (
  arith,
  decode_moqint_takes draft bytes offset n next h,
  get_or-IsByte bytes offset h,
  get_or-IsByte bytes (offset + 1) h,
)

-- Before draft 18 a 16-bit length says where the message ends.
pub size_by_uint16-Stands :
    (draft : DraftVersion) (bytes : List ℕ) (offset : ℕ) (payload rest : List ℕ)
    → is_draft18_or_later draft ≡ false
    → length payload ≤ default_max_control_message_size
    → Stands bytes offset (control_length_bytes draft (length payload) ++ (payload ++ rest))
    → (size_by_uint16 bytes offset ≡ some (offset + 2 + length payload))
      × (length (control_length_bytes draft (length payload)) ≡ 2)
unfolding size_by_uint16 control_length_bytes fits
size_by_uint16-Stands draft23 bytes offset payload rest early h s = cc
size_by_uint16-Stands _ bytes offset payload rest early h s = ground (
  arith,
  read_early bytes offset (length payload) (payload ++ rest) h s,
  length-Stands bytes offset _ s,
  length-append payload rest,
)
