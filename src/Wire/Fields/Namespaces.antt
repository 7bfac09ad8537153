-- ===== src/Wire/Fields/Namespaces.antt =====
-- append_track_namespace and decode_track_namespace of moqt_control_messages.cpp against each
-- other.
use moqxr.Common.{
  ℕ, ◌+◌, ◌<◌, ◌≡◌, refl, sym, ap, ◌∙◌, true, not, ◌&&◌, ◌||◌, some, List, [], ◌∷◌, ◌++◌, arith,
  ltb, leb, length, length-append, append-nil, append_assoc,
}
use moqxr.Draft.{DraftVersion, is_draft18_or_later}
use moqxr.Wire.Moqint.{moqint_limit}
use moqxr.Wire.Moqint.RoundTrip.{
  moqint_bytes, push_moqint-eq, Stands, Stands-next, decode_moqint-Stands,
}
use moqxr.Wire.Fields.{
  append_strings, append_track_namespace, split_track_namespace, decode_field, decode_fields,
  decode_track_namespace,
}
use moqxr.Wire.Fields.Strings.{
  string_bytes, append_string-eq, string_length-Stands, string_fits, string_value, string_end,
}

unfoldable pub fields_bytes : DraftVersion → List (List ℕ) → List ℕ
fields_bytes draft [] = []
fields_bytes draft (p ∷ ps) = string_bytes draft p ++ fields_bytes draft ps

-- Fields behind `n` bytes of fields: each can be encoded and, from draft 18 on, is not empty and ends
-- within 4096 bytes.
abbrev pub FieldsFit : DraftVersion → ℕ → List (List ℕ) → Type 0
FieldsFit draft n [] = Unit {0}
FieldsFit draft n (p ∷ ps) =
    (length p < moqint_limit draft)
    × (not (is_draft18_or_later draft) || (ltb 0 (length p) && leb (n + length p) 4096) ≡ true)
    × FieldsFit draft (n + length p) ps

append_strings-eq :
    (draft : DraftVersion) (n : ℕ) (ps : List (List ℕ)) (out : List ℕ)
    → FieldsFit draft n ps
    → append_strings out draft ps ≡ out ++ fields_bytes draft ps
unfolding append_strings fields_bytes
append_strings-eq draft n [] out f = sym (append-nil out)
append_strings-eq draft n (p ∷ ps) out f = rw (append_string-eq out draft p f.0) (
    append_strings-eq draft (n + length p) ps (out ++ string_bytes draft p) f.2
    ∙ append_assoc out (string_bytes draft p) (fields_bytes draft ps))

field-Stands :
    (draft : DraftVersion) (bytes : List ℕ) (offset n fault : ℕ) (p rest : List ℕ)
    → length p < moqint_limit draft
    → not (is_draft18_or_later draft) || (ltb 0 (length p) && leb (n + length p) 4096) ≡ true
    → Stands bytes offset (string_bytes draft p ++ rest)
    → decode_field bytes offset draft n fault
      ≡ (some (p, offset + length (string_bytes draft p)), fault)
unfolding decode_field
field-Stands draft bytes offset n fault p rest h fit s = ground (
  arith,
  string_length-Stands draft bytes offset p rest h s,
  string_fits draft bytes offset p rest h s,
  string_value draft bytes offset p rest h s,
  string_end draft bytes offset p rest h s,
)

fields-Stands :
    (draft : DraftVersion) (bytes rest : List ℕ) (fault : ℕ) (ps : List (List ℕ)) (offset n : ℕ)
    → FieldsFit draft n ps
    → Stands bytes offset (fields_bytes draft ps ++ rest)
    → decode_fields (length ps) bytes offset draft n fault
      ≡ (some (ps, offset + length (fields_bytes draft ps)), fault)
unfolding decode_fields fields_bytes
fields-Stands draft bytes rest fault [] offset n f s = ground arith
fields-Stands draft bytes rest fault (p ∷ ps) offset n f s =
    let behind = fields_bytes draft ps ++ rest in
    let (front, e, len) = s in
    let s' : Stands bytes offset (string_bytes draft p ++ behind) = (
      front,
      e ∙ ap (◌++◌ front) (append_assoc (string_bytes draft p) (fields_bytes draft ps) rest),
      len,
    ) in
    ground (
      arith,
      field-Stands draft bytes offset n fault p behind f.0 f.1 s',
      fields-Stands draft bytes rest fault ps (offset + length (string_bytes draft p))
          (n + length p) f.2 (Stands-next bytes offset (string_bytes draft p) behind s'),
      length-append (string_bytes draft p) (fields_bytes draft ps),
    )

-- The number of fields can be encoded and, from draft 18 on, is at most 32.
abbrev pub CountFits : DraftVersion → List (List ℕ) → Type 0
CountFits draft ps =
    (length ps < moqint_limit draft)
    × (not (is_draft18_or_later draft) || leb (length ps) 32 ≡ true)

pub namespace-Stands :
    (draft : DraftVersion) (bytes rest : List ℕ) (fault : ℕ) (ps : List (List ℕ)) (offset : ℕ)
    → CountFits draft ps
    → FieldsFit draft 0 ps
    → Stands bytes offset (moqint_bytes draft (length ps) ++ (fields_bytes draft ps ++ rest))
    → decode_track_namespace bytes offset draft fault ≡ (
      some (ps, offset + length (moqint_bytes draft (length ps) ++ fields_bytes draft ps)),
      fault,
    )
unfolding decode_track_namespace
namespace-Stands draft bytes rest fault ps offset count f s =
    let after = offset + length (moqint_bytes draft (length ps)) in
    ground (
      arith,
      count,
      decode_moqint-Stands draft bytes offset (length ps) (fields_bytes draft ps ++ rest) count.0 s,
      fields-Stands draft bytes rest fault ps after 0 f (
          Stands-next bytes offset (moqint_bytes draft (length ps)) (fields_bytes draft ps ++ rest)
            s),
      length-append (moqint_bytes draft (length ps)) (fields_bytes draft ps),
    )

-- A track namespace that append_track_namespace writes behind any bytes is read back by
-- decode_track_namespace at that place, whatever follows, as the parts that split_track_namespace
-- makes of it, if their number and their lengths are within the bounds of the draft; the cursor is then
-- behind it and no fault is recorded.
pub decode-append_track_namespace :
    (draft : DraftVersion) (out track_namespace rest : List ℕ) (fault : ℕ)
    → CountFits draft (split_track_namespace track_namespace)
    → FieldsFit draft 0 (split_track_namespace track_namespace)
    → decode_track_namespace
        (append_track_namespace out draft track_namespace ++ rest)
        (length out)
        draft
        fault
      ≡ (
        some (
          split_track_namespace track_namespace,
          length (append_track_namespace out draft track_namespace),
        ),
        fault,
      )
unfolding append_track_namespace
decode-append_track_namespace draft out track_namespace rest fault count f =
    let ps = split_track_namespace track_namespace in
    let head = moqint_bytes draft (length ps) in
    let whole : append_track_namespace out draft track_namespace
        ≡ out ++ (head ++ fields_bytes draft ps) =
      rw (push_moqint-eq draft out (length ps) count.0) (
        append_strings-eq draft 0 ps (out ++ head) f
        ∙ append_assoc out head (fields_bytes draft ps)) in
    rw (whole, length-append)
      (namespace-Stands draft ((out ++ (head ++ fields_bytes draft ps)) ++ rest) rest fault ps
        (length out) count f (out, simp append_assoc, refl))
