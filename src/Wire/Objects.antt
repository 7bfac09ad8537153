-- ===== src/Wire/Objects.antt =====
-- The objects on a subgroup stream: encode_subgroup_header and encode_subgroup_object of
-- src/transport/moqt_control_messages.cpp, and serialize_object_properties of the same file. A call
-- that throws std::invalid_argument is `none`.
pub mod Reader
pub mod Written
pub mod RoundTrip
use moqxr.Common.{
  ℕ, zero, suc, ◌+◌, ◌-◌, ◌*◌, ◌/◌, ◌%◌, ◌^◌, ◌≤◌, ◌<◌, ◌≡◌, ◌≢◌, ◌⊎◌, inl, inr, refl, sym, ap, ◌∙◌,
  subst, Bool, true, false, not, ◌&&◌, ◌||◌, Option, none, some, List, [], ◌∷◌, ◌++◌, map, arith,
  ltb, leb, ◌==◌, if◌then◌else◌, length, get_or, take, drop, All, get_or-append, length-append,
  append-nil, append_assoc, Bool-cases, Option-cases, ◌>>=◌,
}
use moqxr.Common.Bytes.{sub64}
use moqxr.Draft.{DraftVersion, is_draft14, is_draft18_or_later}
use moqxr.Wire.Vi64.{append_vi64}
use moqxr.Wire.Moqint.{uses_moq_vi64, push_moqint}

-- The value of a property: an integer or bytes.
pub data PropertyValue : Type 0 where
  integer : ℕ → PropertyValue
  octets : List ℕ → PropertyValue

pub record ObjectProperty : Type 0 where
  pub id : ℕ
  pub value : PropertyValue

-- std::sort by the ids. Equal ids are refused later, so their order does not matter.
unfoldable pub insert_property : ObjectProperty → List ObjectProperty → List ObjectProperty
insert_property property [] = property ∷ []
insert_property property (q ∷ qs) =
    if leb property.id q.id then property ∷ q ∷ qs else q ∷ insert_property property qs

unfoldable pub sort_properties : List ObjectProperty → List ObjectProperty
sort_properties [] = []
sort_properties (property ∷ properties) = insert_property property (sort_properties properties)

-- The value of one property behind the bytes so far.
unfoldable pub append_value : List ℕ → Bool → PropertyValue → Option (List ℕ)
append_value bytes true (integer value) = some (append_vi64 bytes value)
append_value bytes true (octets value) = none
append_value bytes false (integer value) = none
append_value bytes false (octets value) =
    if ltb 65535 (length value)
    then none
    else let sized = append_vi64 bytes (length value) in
      if ltb 65536 (length sized) || ltb (65536 - length sized) (length value)
      then none
      else some (sized ++ value)

abbrev pub last_of : Option ℕ → ℕ
last_of none = 0
last_of (some id) = id

-- !first && property->id == previous
abbrev repeats : Option ℕ → ℕ → Bool
repeats none id = false
repeats (some previous) id = id == previous

-- The loop over the sorted properties; `previous` is `none` before the first.
unfoldable pub serialize_sorted : List ℕ → Option ℕ → List ObjectProperty → Option (List ℕ)
serialize_sorted bytes previous [] = some bytes
serialize_sorted bytes previous (property ∷ properties) =
    if repeats previous property.id
    then none
    else elim (append_value (append_vi64 bytes (sub64 property.id (last_of previous)))
        ((property.id % 2) == 0) property.value) [
          | none ↦ none
          | some bytes' ↦
              if ltb 65536 (length bytes')
              then none
              else serialize_sorted bytes' (some property.id) properties
        ]

unfoldable pub serialize_object_properties : List ObjectProperty → Option (List ℕ)
serialize_object_properties properties =
    if ltb 32768 (length properties)
    then none
    else serialize_sorted [] none (sort_properties properties)

-- The type of the stream. The bits that are set do not overlap.
unfoldable pub subgroup_type : DraftVersion → Bool → Bool → Bool → ℕ
subgroup_type draft end_of_group properties_present first_object =
    (if is_draft14 draft then 0x10 else 0x30)
    + (if end_of_group then 0x08 else 0)
    + (if properties_present then 0x01 else 0)
    + (if first_object && is_draft18_or_later draft then 0x40 else 0)

unfoldable pub encode_subgroup_header :
    DraftVersion → ℕ → ℕ → ℕ → Bool → Bool → Bool → Option (List ℕ)
encode_subgroup_header draft track_alias group_id subgroup_id end_of_group properties_present
      first_object =
    if properties_present && not (is_draft18_or_later draft)
    then none
    else some (
        push_moqint
          (push_moqint
            (push_moqint [] draft
              (subgroup_type draft end_of_group properties_present first_object))
            draft track_alias)
          draft group_id)

abbrev pub is_none_left : List ObjectProperty → Bool
is_none_left [] = true
is_none_left (property ∷ properties) = false

-- previous_object_id && object_id <= *previous_object_id
abbrev pub not_above : Option ℕ → ℕ → Bool
not_above none object_id = false
not_above (some previous) object_id = leb object_id previous

abbrev pub object_id_delta : Option ℕ → ℕ → ℕ
object_id_delta none object_id = object_id
object_id_delta (some previous) object_id = object_id - previous - 1

abbrev pub is_no_payload : List ℕ → Bool
is_no_payload [] = true
is_no_payload (b ∷ bs) = false

-- The bytes of an object from its delta, its properties where they are present, and its payload.
unfoldable pub write_object : DraftVersion → ℕ → Bool → List ℕ → List ℕ → List ℕ
write_object draft delta properties_present property_bytes payload =
    let head = push_moqint [] draft delta in
    let described =
      if properties_present
      then push_moqint head draft (length property_bytes) ++ property_bytes
      else head in
    let sized = push_moqint described draft (length payload) in
    (if uses_moq_vi64 draft && is_no_payload payload then push_moqint sized draft 0 else sized)
    ++ payload

unfoldable pub encode_subgroup_object :
    DraftVersion → Option ℕ → ℕ → List ℕ → List ObjectProperty → Bool → Option (List ℕ)
encode_subgroup_object draft previous_object_id object_id payload properties properties_present =
    let present = properties_present || not (is_none_left properties) in
    if present && not (is_draft18_or_later draft)
    then none
    else if not_above previous_object_id object_id
    then none
    else elim (serialize_object_properties properties) [
      | none ↦ none
      | some property_bytes ↦ some (
          write_object draft (object_id_delta previous_object_id object_id) present property_bytes
            payload)
    ]
