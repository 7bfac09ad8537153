-- ===== src/Wire/Objects/RoundTrip.antt =====
-- Objects of encode_subgroup_object (src/transport/moqt_control_messages.cpp) as a subscriber reads them.
use moqxr.Common.{
  ℕ, ◌%◌, ◌≤◌, ◌<◌, ◌≡◌, inl, inr, sym, subst, Bool, false, not, ◌||◌, Option, none, some, List, [],
  ◌∷◌, ◌++◌, arith, ◌==◌, if◌then◌else◌, length, Option-cases, ◌>>=◌,
}
use moqxr.Common.Bytes.{sub64}
use moqxr.Wire.Vi64.{append_vi64}
use moqxr.Draft.{DraftVersion}
use moqxr.Wire.Moqint.{moqint_limit}
use moqxr.Wire.Objects.{
  ObjectProperty, write_object, encode_subgroup_object, serialize_object_properties,
  serialize_sorted, sort_properties, append_value, last_of, is_none_left, not_above,
  object_id_delta,
}
use moqxr.Wire.Objects.Reader.{read_object, next_id}
use moqxr.Wire.Objects.Written.{behind_status, written_read}

-- The serialized properties are at most 64 KiB.
sorted-size :
    (ps : List ObjectProperty) (bytes : List ℕ) (previous : Option ℕ) (out : List ℕ)
    → length bytes ≤ 65536
    → serialize_sorted bytes previous ps ≡ some out
    → length out ≤ 65536
unfolding serialize_sorted
sorted-size [] bytes previous out h e = ground (arith, e, h)
sorted-size (p ∷ ps) bytes previous out h e =
    let value =
      append_value (append_vi64 bytes (sub64 p.id (last_of previous))) ((p.id % 2) == 0) p.value in
    elim (Option-cases value) [
      | inl refused ↦ ground (arith, refused, e)
      | inr (bytes', k) ↦ ground (arith, k, e, sorted-size ps bytes' (some p.id) out)
    ]

properties-size :
    (ps : List ObjectProperty) (out : List ℕ)
    → serialize_object_properties ps ≡ some out
    → length out ≤ 65536
unfolding serialize_object_properties
properties-size ps out e = ground (arith, e, sorted-size (sort_properties ps) [] none out)

delta-next :
    (previous : Option ℕ) (object_id : ℕ)
    → not_above previous object_id ≡ false
    → (next_id previous (object_id_delta previous object_id) ≡ object_id)
      × (object_id_delta previous object_id ≤ object_id)
delta-next none object_id h = ground arith
delta-next (some p) object_id h = ground (arith, h)

encoded-parts :
    (draft : DraftVersion) (previous : Option ℕ) (object_id : ℕ) (payload : List ℕ)
    (properties : List ObjectProperty) (present : Bool) (object : List ℕ)
    → encode_subgroup_object draft previous object_id payload properties present ≡ some object
    → (pb : List ℕ) × (serialize_object_properties properties ≡ some pb)
      × (not_above previous object_id ≡ false)
      × (object
          ≡ write_object draft
              (object_id_delta previous object_id)
              (present || not (is_none_left properties))
              pb
              payload)
unfolding encode_subgroup_object
encoded-parts draft previous object_id payload properties present object e =
    elim (Option-cases (serialize_object_properties properties)) [
      | inl refused ↦ absurd (ground (arith, refused, e))
      | inr (pb, k) ↦ (pb, k, ground (arith, k, e), sym (ground (arith, k, e)))
    ]

-- An object that encode_subgroup_object writes, with an id and a payload length that the draft can
-- carry, is read by a subscriber of the drafts wherever it stands, given the id of the object before
-- it and whether properties are present: with its own id, its serialized properties and its payload.
-- From draft 17 on, or where the payload is not empty, the cursor is then behind the object. Before
-- draft 17 an object with an empty payload lacks the status that the subscriber expects: the
-- subscriber takes the integer behind the object for it, and reads no object where there is none.
pub read-encode_subgroup_object :
    (draft : DraftVersion) (previous : Option ℕ) (object_id : ℕ) (payload : List ℕ)
    (properties : List ObjectProperty) (present : Bool) (object front rest : List ℕ)
    → object_id < moqint_limit draft
    → length payload < moqint_limit draft
    → encode_subgroup_object draft previous object_id payload properties present ≡ some object
    → (pb : List ℕ) × (serialize_object_properties properties ≡ some pb)
      × (read_object
            (front ++ object ++ rest)
            (length front)
            draft
            previous
            (present || not (is_none_left properties))
          ≡ (do
            end ← behind_status (front ++ object ++ rest) (length (front ++ object)) draft payload
            some (
              object_id,
              (if present || not (is_none_left properties) then pb else []),
              payload,
              end,
            )))
read-encode_subgroup_object draft previous object_id payload properties present object front rest
      id_fits payload_fits e =
    let shown = present || not (is_none_left properties) in
    let delta = object_id_delta previous object_id in
    let (pb, k, above, written) =
      encoded-parts draft previous object_id payload properties present object e in
    let ids = delta-next previous object_id above in
    let small = properties-size properties pb k in
    let delta_fits : delta < moqint_limit draft = omega (arith, ids.1, id_fits) in
    let pb_fits : length pb < moqint_limit draft = ground (arith, small) in
    (
      pb,
      k,
      subst
          (λ x. read_object (front ++ object ++ rest) (length front) draft previous shown ≡ (do
            end ← behind_status (front ++ object ++ rest) (length (front ++ object)) draft payload
            some (x, (if shown then pb else []), payload, end)))
          ids.0
          (written_read draft delta shown pb payload delta_fits pb_fits payload_fits object front
            rest previous written),
    )
