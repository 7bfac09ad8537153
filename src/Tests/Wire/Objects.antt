-- ===== src/Tests/Wire/Objects.antt =====
-- Objects on concrete bytes.
use moqxr.Common.{ℕ, ◌≡◌, refl, true, false, none, some, List, [], ◌∷◌, ◌++◌, arith, length}
use moqxr.Draft.{draft14, draft22}
use moqxr.Wire.Vi64.{append_vi64, vi64_bytes}
use moqxr.Wire.Varint.{append_varint, decode_varint_impl}
use moqxr.Wire.Moqint.{push_moqint, append_moqint, decode_moqint_impl}
use moqxr.Wire.Objects.{
  ObjectProperty, integer, octets, serialize_object_properties, sort_properties, insert_property,
  serialize_sorted, append_value, encode_subgroup_object, write_object,
}
use moqxr.Wire.Objects.Reader.{read_object, read_sized, read_properties, skip_status}
use moqxr.Wire.Objects.RoundTrip.{read-encode_subgroup_object}

abbrev properties : List ObjectProperty
properties =
    record { id = 5; value = octets (1 ∷ 2 ∷ []) } ∷ record { id = 2; value = integer 9 } ∷ []

abbrev object : List ℕ
object = 1 ∷ 6 ∷ 2 ∷ 9 ∷ 3 ∷ 2 ∷ 1 ∷ 2 ∷ 1 ∷ 7 ∷ []

encoded_test : encode_subgroup_object draft22 (some 4) 6 (7 ∷ []) properties false ≡ some object
unfolding encode_subgroup_object serialize_object_properties sort_properties insert_property
    serialize_sorted append_value append_vi64 vi64_bytes write_object push_moqint append_moqint
encoded_test = refl

read-encode_subgroup_object_example :
    (pb : List ℕ) × (serialize_object_properties properties ≡ some pb)
    × (read_object ((0 ∷ []) ++ object ++ (8 ∷ [])) 1 draft22 (some 4) true
        ≡ some (6, pb, 7 ∷ [], length ((0 ∷ []) ++ object)))
read-encode_subgroup_object_example =
    read-encode_subgroup_object draft22 (some 4) 6 (7 ∷ []) properties false object (0 ∷ [])
      (8 ∷ []) (omega arith) (omega arith) encoded_test

-- Draft 14 has no status behind the empty payload's length.
encoded_empty_test : encode_subgroup_object draft14 none 0 [] [] false ≡ some (0 ∷ 0 ∷ [])
unfolding encode_subgroup_object serialize_object_properties sort_properties serialize_sorted
    write_object push_moqint append_moqint append_varint
encoded_empty_test = refl

-- Behind the empty object the next object's id delta 5 is taken for the status.
swallowed_test : read_object (0 ∷ 0 ∷ 5 ∷ 1 ∷ 7 ∷ []) 0 draft14 none false ≡ some (0, [], [], 3)
unfolding read_object read_sized read_properties skip_status decode_moqint_impl decode_varint_impl
swallowed_test = refl

no_status_test : read_object (0 ∷ 0 ∷ []) 0 draft14 none false ≡ none
unfolding read_object read_sized read_properties skip_status decode_moqint_impl decode_varint_impl
no_status_test = refl
