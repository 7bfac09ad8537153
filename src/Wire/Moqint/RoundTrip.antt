-- ===== src/Wire/Moqint/RoundTrip.antt =====
-- push_moqint and decode_moqint_impl of moqt_control_messages.cpp, one integer after the other.
use moqxr.Common.{
  ℕ, ◌+◌, ◌≤◌, ◌<◌, ◌≡◌, refl, some, List, ◌++◌, arith, if◌then◌else◌, length, All, length-append,
  append_assoc,
}
use moqxr.Common.Bytes.{IsByte}
use moqxr.Draft.{DraftVersion}
use moqxr.Wire.Varint.RoundTrip.{
  varint_bytes, varint_bytes_size, append_varint-eq, decode_varint_bytes, decode_varint-append,
}
use moqxr.Wire.Varint.Bounds.{decode_varint_takes}
use moqxr.Wire.Vi64.{append_vi64, vi64_bytes}
use moqxr.Wire.Vi64.RoundTrip.{decode_vi64_bytes, vi64_bytes_size, decode_vi64-append}
use moqxr.Wire.Vi64.Bounds.{decode_vi64_takes}
use moqxr.Wire.Moqint.{uses_moq_vi64, append_moqint, push_moqint, decode_moqint_impl, moqint_limit}

-- The bytes of an encodable value.
pub moqint_bytes : DraftVersion → ℕ → List ℕ
moqint_bytes draft value = if uses_moq_vi64 draft then vi64_bytes value else varint_bytes value

module _ (draft : DraftVersion) (out : List ℕ) (value : ℕ)
    (fits_draft : value < moqint_limit draft) where
  pub append_moqint-eq : append_moqint out draft value ≡ some (out ++ moqint_bytes draft value)
  unfolding append_moqint moqint_bytes append_vi64
  append_moqint-eq = ground (arith, append_varint-eq out value)

  pub push_moqint-eq : push_moqint out draft value ≡ out ++ moqint_bytes draft value
  unfolding push_moqint
  push_moqint-eq = rw (append_moqint-eq, push_moqint)

-- `rest` is what stands at the cursor.
abbrev pub Stands : List ℕ → ℕ → List ℕ → Type 0
Stands bytes offset rest = (front : List ℕ) × (bytes ≡ front ++ rest) × (length front ≡ offset)

decode_moqint_bytes :
    (draft : DraftVersion) (v : ℕ) (rest : List ℕ)
    → v < moqint_limit draft
    → decode_moqint_impl (moqint_bytes draft v ++ rest) 0 draft
      ≡ some (v, length (moqint_bytes draft v))
unfolding decode_moqint_impl moqint_bytes
decode_moqint_bytes draft v rest h =
    ground (arith, decode_varint_bytes v rest, decode_vi64_bytes v rest)

decode_moqint-append :
    (draft : DraftVersion) (out xs : List ℕ) (v n : ℕ)
    → decode_moqint_impl xs 0 draft ≡ some (v, n)
    → decode_moqint_impl (out ++ xs) (length out) draft ≡ some (v, length out + n)
unfolding decode_moqint_impl
decode_moqint-append draft out xs v n h =
    ground (arith, decode_varint-append out xs v n, decode_vi64-append out xs v n)

pub Stands-next :
    (bytes : List ℕ) (offset : ℕ) (xs rest : List ℕ)
    → Stands bytes offset (xs ++ rest)
    → Stands bytes (offset + length xs) rest
Stands-next bytes offset xs rest (front, e, len) =
    (front ++ xs, rw append_assoc e, omega (arith, length-append front xs))

-- The value at the cursor is the one that was written there.
pub decode_moqint-Stands :
    (draft : DraftVersion) (bytes : List ℕ) (offset v : ℕ) (rest : List ℕ)
    → v < moqint_limit draft
    → Stands bytes offset (moqint_bytes draft v ++ rest)
    → decode_moqint_impl bytes offset draft ≡ some (v, offset + length (moqint_bytes draft v))
decode_moqint-Stands draft bytes offset v rest h (front, e, len) =
    rw (e, ← len) (decode_moqint-append draft front _ v _ (decode_moqint_bytes draft v rest h))

-- For every draft: what push_moqint writes behind any bytes, decode_moqint_impl reads back at that
-- place whatever follows, with the cursor behind it.
pub decode-push_moqint :
    (draft : DraftVersion) (out rest : List ℕ) (v : ℕ)
    → v < moqint_limit draft
    → decode_moqint_impl (push_moqint out draft v ++ rest) (length out) draft
      ≡ some (v, length (push_moqint out draft v))
decode-push_moqint draft out rest v h =
    rw (push_moqint-eq draft out v h, length-append, append_assoc)
      (decode_moqint-Stands draft _ (length out) v rest h (out, refl, refl))

-- On any bytes a decoded integer is one the draft can carry, and the cursor moves on by one to nine
-- bytes and stays in the span.
pub decode_moqint_takes :
    (draft : DraftVersion) (bytes : List ℕ) (offset v next : ℕ)
    → All IsByte bytes
    → decode_moqint_impl bytes offset draft ≡ some (v, next)
    → (v < moqint_limit draft) × (offset < next) × (next ≤ offset + 9) × (next ≤ length bytes)
unfolding decode_moqint_impl
decode_moqint_takes draft bytes offset v next h e =
    ground
      (arith, decode_varint_takes bytes offset v next h, decode_vi64_takes bytes offset v next h)

pub moqint_bytes_size :
    (draft : DraftVersion) (v : ℕ)
    → (1 ≤ length (moqint_bytes draft v)) × (length (moqint_bytes draft v) ≤ 9)
unfolding moqint_bytes
moqint_bytes_size draft v = ground (arith, varint_bytes_size v, vi64_bytes_size v)
