-- ===== src/Tests/Wire/Fields.antt =====
-- Strings and namespaces on concrete bytes.
use moqxr.Common.{ℕ, ◌≡◌, refl, some, List, [], ◌∷◌, ◌++◌, arith, length, All}
use moqxr.Draft.{draft22}
use moqxr.Wire.Fields.{
  split_track_namespace, split_parts, emit_part, append_track_namespace, decode_track_namespace,
}
use moqxr.Wire.Fields.Namespaces.{CountFits, FieldsFit, decode-append_track_namespace}
use moqxr.Wire.Fields.Parts.{IsPart}

-- The bytes of `ab/c`.
abbrev text : List ℕ
text = 97 ∷ 98 ∷ 47 ∷ 99 ∷ []

split_test : split_track_namespace text ≡ (97 ∷ 98 ∷ []) ∷ (99 ∷ []) ∷ []
unfolding split_track_namespace split_parts emit_part
split_test = refl

slashes_test : split_track_namespace (47 ∷ 47 ∷ []) ≡ (47 ∷ 47 ∷ []) ∷ []
unfolding split_track_namespace split_parts emit_part
slashes_test = refl

text-CountFits : CountFits draft22 (split_track_namespace text)
unfolding split_track_namespace split_parts emit_part
text-CountFits = (omega arith, refl)

text-FieldsFit : FieldsFit draft22 0 (split_track_namespace text)
unfolding split_track_namespace split_parts emit_part
text-FieldsFit = (omega arith, refl, (omega arith, refl, tt))

decode-append_track_namespace_example :
    decode_track_namespace (append_track_namespace (9 ∷ []) draft22 text ++ 1 ∷ []) 1 draft22 0
    ≡ (some (split_track_namespace text, length (append_track_namespace (9 ∷ []) draft22 text)), 0)
decode-append_track_namespace_example =
    decode-append_track_namespace draft22 (9 ∷ []) text (1 ∷ []) 0 text-CountFits text-FieldsFit

parts-ArePart : All IsPart ((97 ∷ []) ∷ (98 ∷ []) ∷ [])
parts-ArePart = (((λ e. cc), (refl, tt)), (((λ e. cc), (refl, tt)), tt))
