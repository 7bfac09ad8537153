-- ===== src/Wire/Varint/RoundTrip.antt =====
-- append_varint and decode_varint_impl against each other.
use moqxr.Common.{
  ℕ, ◌+◌, ◌-◌, ◌^◌, ◌≤◌, ◌≡◌, some, List, [], ◌∷◌, ◌++◌, arith, leb, if◌then◌else◌, length, get_or,
  get_or-append, length-append, append_assoc,
}
use moqxr.Common.Bytes.{shr, low_bits}
use moqxr.Wire.Varint.{append_varint, max_quic_varint_value, decode_varint_impl}
use moqxr.Wire.Cursor.{accumulate-append}

-- The encoding without the buffer it is appended to.
pub varint_bytes : ℕ → List ℕ
varint_bytes value =
    if leb value 63
    then value ∷ []
    else if leb value 16383
    then (0x40 + low_bits (shr value 8) 6) ∷ low_bits value 8 ∷ []
    else if leb value 1073741823
    then (0x80 + low_bits (shr value 24) 6)
      ∷ low_bits (shr value 16) 8
      ∷ low_bits (shr value 8) 8
      ∷ low_bits value 8
      ∷ []
    else (0xc0 + low_bits (shr value 56) 6)
      ∷ low_bits (shr value 48) 8
      ∷ low_bits (shr value 40) 8
      ∷ low_bits (shr value 32) 8
      ∷ low_bits (shr value 24) 8
      ∷ low_bits (shr value 16) 8
      ∷ low_bits (shr value 8) 8
      ∷ low_bits value 8
      ∷ []

pub append_varint-eq :
    (out : List ℕ) (v : ℕ)
    → v ≤ max_quic_varint_value
    → append_varint out v ≡ some (out ++ varint_bytes v)
unfolding append_varint varint_bytes
append_varint-eq out v h = ground arith

pub decode_varint_bytes :
    (v : ℕ) (rest : List ℕ)
    → v ≤ max_quic_varint_value
    → decode_varint_impl (varint_bytes v ++ rest) 0 ≡ some (v, length (varint_bytes v))
unfolding decode_varint_impl varint_bytes
decode_varint_bytes v rest h = ground arith

pub decode_varint-append :
    (out xs : List ℕ) (v n : ℕ)
    → decode_varint_impl xs 0 ≡ some (v, n)
    → decode_varint_impl (out ++ xs) (length out) ≡ some (v, length out + n)
unfolding decode_varint_impl
decode_varint-append out xs v n h = ground (
  arith,
  length-append out xs,
  get_or-append out xs 0 0,
  accumulate-append (2 ^ shr (get_or xs 0 0) 6 - 1) out xs 1 (low_bits (get_or xs 0 0) 6),
)

-- A value of at most 2^62 - 1 is appended by append_varint as some bytes behind those that are
-- there, and decode_varint_impl reads it back at that place, whatever follows, with the cursor
-- behind it.
pub decode-append_varint :
    (out rest : List ℕ) (v : ℕ)
    → v ≤ max_quic_varint_value
    → (bytes : List ℕ) × (append_varint out v ≡ some (out ++ bytes))
      × (decode_varint_impl (out ++ bytes ++ rest) (length out) ≡ some (v, length (out ++ bytes)))
decode-append_varint out rest v h = (
  varint_bytes v,
  append_varint-eq out v h,
  rw (append_assoc, length-append)
      (decode_varint-append out (varint_bytes v ++ rest) v _ (decode_varint_bytes v rest h)),
)

pub varint_bytes_size : (v : ℕ) → (1 ≤ length (varint_bytes v)) × (length (varint_bytes v) ≤ 8)
unfolding varint_bytes
varint_bytes_size v = ground arith
