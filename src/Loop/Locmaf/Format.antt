-- ===== src/Loop/Locmaf/Format.antt =====
-- LOCMAF objects as rebase_locmaf_timestamps (src/loop_timestamps.cpp) reads them: boxes, then the
-- type, the length of the properties, the properties and the rest.
use moqxr.Common.{
  ℕ, ◌%◌, ◌≤◌, ◌≡◌, ◌≢◌, sym, ◌∙◌, some, List, [], ◌∷◌, ◌++◌, length, length-append, append_assoc,
  All,
}
use moqxr.Common.Bytes.{IsByte, IsU64}
use moqxr.Wire.Vi64.{vi64_bytes}
use moqxr.Wire.Vi64.RoundTrip.{decode_vi64_bytes, decode_vi64-append, vi64_bytes_size}
use moqxr.Loop.Varint.{read_locmaf_varint, locmaf_varint}
use moqxr.Loop.Varint.Equivalence.{reads-eq, writes-eq}

-- A property: an even id with a value, or an odd id with bytes.
pub data Entry : Type 0 where
  value_entry : (id value : ℕ) → Entry
  bytes_entry : (id : ℕ) → List ℕ → Entry

abbrev pub entry_bytes : Entry → List ℕ
entry_bytes (value_entry id value) = locmaf_varint id ++ locmaf_varint value
entry_bytes (bytes_entry id bytes) = locmaf_varint id ++ (locmaf_varint (length bytes) ++ bytes)

abbrev pub entries_bytes : List Entry → List ℕ
entries_bytes [] = []
entries_bytes (entry ∷ entries) = entry_bytes entry ++ entries_bytes entries

-- Another property than the base time, in its form.
abbrev pub IsOther : Entry → Type 0
IsOther (value_entry id value) = (id % 2 ≡ 0) × (id ≢ 10) × IsU64 id × IsU64 value
IsOther (bytes_entry id bytes) = (id % 2 ≡ 1) × IsU64 id

abbrev pub boxes_bytes : List (List ℕ) → List ℕ
boxes_bytes [] = []
boxes_bytes (box ∷ boxes) =
    locmaf_varint 1 ++ (locmaf_varint (length box) ++ (box ++ boxes_bytes boxes))

abbrev pub properties : List Entry → ℕ → List ℕ → List ℕ
properties before base after =
    entries_bytes before ++ (locmaf_varint 10 ++ (locmaf_varint base ++ after))

-- A full object with a base time.
abbrev pub object : List (List ℕ) → List Entry → ℕ → List ℕ → List ℕ → List ℕ
object boxes before base after body =
    boxes_bytes boxes
    ++ (locmaf_varint 2
        ++ (locmaf_varint (length (properties before base after))
            ++ (properties before base after ++ body)))

module _ (payload : List ℕ) (h : All IsByte payload) where
  -- The value behind `front` is read, with the cursor behind it.
  pub read-at :
      (front : List ℕ) (v : ℕ) (rest : List ℕ)
      → IsU64 v
      → payload ≡ front ++ (locmaf_varint v ++ rest)
      → read_locmaf_varint payload (length front) ≡ some (v, length (front ++ locmaf_varint v))
  read-at front v rest u e =
      rw (reads-eq payload (length front) h, length-append, e, writes-eq v u)
        (decode_vi64-append front (vi64_bytes v ++ rest) v _ (decode_vi64_bytes v rest u))

pub behind :
    (payload front xs rest : List ℕ)
    → payload ≡ front ++ (xs ++ rest)
    → payload ≡ (front ++ xs) ++ rest
behind payload front xs rest e = e ∙ sym (append_assoc front xs rest)

pub locmaf_varint_size : (v : ℕ) → IsU64 v → 1 ≤ length (locmaf_varint v)
locmaf_varint_size v u = rw (writes-eq v u) (vi64_bytes_size v).0
