-- ===== src/Session/Generations/Finals.antt =====
-- final_object_indices and the completion offsets of GenerationAvailability, and
-- is_final_object_in_subgroup (src/transport/moqt_session.cpp): two ways to the last object of a
-- subgroup.
use moqxr.Common.{
  ℕ, zero, suc, ◌+◌, ◌≤◌, ◌≡◌, refl, ◌∙◌, Bool, true, false, ◌&&◌, Option, none, some, List, [],
  ◌∷◌, arith, ltb, leb, Bool-cases, Option-cases, inl, inr, text_key, get_or, subst, ap,
}
use moqxr.Session.Subscriptions.{CmsfObject}
use moqxr.Session.Generations.{
  SubgroupKey, same_key, subgroup_of, FinalObject, same_subgroup, note_final, final_objects,
  find_final, is_final_object_in_subgroup, first_media_time, object_offset, object_offsets_of,
  completion_offset, completion_offsets, new_availability, offset_at,
}
use moqxr.Session.Generations.Entries.{
  object_at, elsewhere, newer, find_final-note_final, is_found, final_objects-find,
}

-- The index of an entry leads to the object whose id the entry keeps.
record PointsAt (plan : List CmsfObject) (k : SubgroupKey) (final : FinalObject) : Type 0 where
  object : CmsfObject
  at_index : object_at plan final.index ≡ some object
  same : same_key (subgroup_of object) k ≡ true
  same_id : object.object_id ≡ final.object_id

abbrev OnPlan : List CmsfObject → SubgroupKey → Option FinalObject → Type 0
OnPlan plan k none = Unit {0}
OnPlan plan k (some final) = PointsAt plan k final

newer-OnPlan :
    (plan : List CmsfObject) (k : SubgroupKey) (index : ℕ) (object : CmsfObject)
    (old : Option FinalObject)
    → object_at plan index ≡ some object
    → same_key (subgroup_of object) k ≡ true
    → OnPlan plan k old
    → OnPlan plan k (newer index object old)
newer-OnPlan plan k index object none here also on = record {
  object = object;
  at_index = here;
  same = also;
  same_id = refl;
}
newer-OnPlan plan k index object (some final) here also on =
    elim (Bool-cases (leb final.object_id object.object_id)) [
      | inl above ↦
          rw above (record { object = object; at_index = here; same = also; same_id = refl })
      | inr below ↦ rw below on
    ]

abbrev IsAbove : Option FinalObject → FinalObject → Type 0
IsAbove none final = Unit {0}
IsAbove (some old) final = old.object_id ≤ final.object_id

newer-IsAbove :
    (index : ℕ) (object : CmsfObject) (old : Option FinalObject) (final : FinalObject)
    → IsAbove (newer index object old) final
    → IsAbove old final × (object.object_id ≤ final.object_id)
newer-IsAbove index object none final h = (tt, h)
newer-IsAbove index object (some old) final h =
    elim (Bool-cases (leb old.object_id object.object_id)) [
      | inl above ↦
          let h' : object.object_id ≤ final.object_id = rw above at h in (ground arith, h')
      | inr below ↦ let h' : old.object_id ≤ final.object_id = rw below at h in (h', ground arith)
    ]

-- The entry that is found behind the objects, with the entry that was there before them.
record IsLast (plan : List CmsfObject) (k : SubgroupKey) (objects : List CmsfObject)
    (old : Option FinalObject) (final : FinalObject) : Type 0 where
  above : IsAbove old final
  points : PointsAt plan k final
  last :
      (object : CmsfObject)
      → same_key (subgroup_of object) k ≡ true
      → object.object_id ≡ final.object_id
      → is_final_object_in_subgroup objects object ≡ true

last_behind :
    (object last : CmsfObject) (objects : List CmsfObject)
    → (same_subgroup object last && ltb last.object_id object.object_id) ≡ false
    → is_final_object_in_subgroup objects last ≡ true
    → is_final_object_in_subgroup (object ∷ objects) last ≡ true
unfolding is_final_object_in_subgroup
last_behind object last objects h k = rw h k

empty_last : (last : CmsfObject) → is_final_object_in_subgroup [] last ≡ true
unfolding is_final_object_in_subgroup
empty_last last = refl

module _ (plan : List CmsfObject) (k : SubgroupKey) where
  final_objects-IsLast :
      (objects : List CmsfObject) (index : ℕ) (finals : List FinalObject) (final : FinalObject)
      → ((i : ℕ) → object_at plan (index + i) ≡ object_at objects i)
      → OnPlan plan k (find_final k finals)
      → find_final k (final_objects objects index finals) ≡ some final
      → IsLast plan k objects (find_final k finals) final
  unfolding final_objects
  final_objects-IsLast [] index finals final behind on found = rw found (record {
    above = omega arith;
    points = rw found at on;
    last = λ object same same_id. empty_last object;
  })
  final_objects-IsLast (object ∷ objects) index finals final behind on found =
      let finals' = note_final index object finals in
      let step = find_final-note_final k index object finals in
      let behind' : (i : ℕ) → object_at plan (index + 1 + i) ≡ object_at objects i =
        λ i. subst (λ j. object_at plan j ≡ object_at objects i) (omega arith) (behind (suc i)) in
      let here : object_at plan index ≡ some object =
        subst (λ j. object_at plan j ≡ some object) (omega arith) (behind 0) in
      elim (Bool-cases (same_key (subgroup_of object) k)) [
        | inl also ↦
            let on' : OnPlan plan k (find_final k finals') =
              rw (step, also)
                (newer-OnPlan plan k index object (find_final k finals) here also on) in
            let later = final_objects-IsLast objects (index + 1) finals' final behind' on' found in
            let above : IsAbove (newer index object (find_final k finals)) final =
              rw (step, also) at later.above in
            let (old, this) = newer-IsAbove index object (find_final k finals) final above in
            record {
              above = old;
              points = later.points;
              last = λ last same same_id.
                  last_behind object last objects (ground arith) (later.last last same same_id);
            }
        | inr off ↦
            let on' : OnPlan plan k (find_final k finals') = rw (step, off) on in
            let later = final_objects-IsLast objects (index + 1) finals' final behind' on' found in
            record {
              above = rw (step, off) at later.above;
              points = later.points;
              last = λ last same same_id.
                  last_behind object last objects
                    (rw (elsewhere (subgroup_of object) (subgroup_of last) k same off) refl)
                    (later.last last same same_id);
            }
      ]

completion_offsets-at :
    (offsets : List ℕ) (finals : List FinalObject) (objects : List CmsfObject) (i : ℕ)
    (object : CmsfObject)
    → object_at objects i ≡ some object
    → offset_at (completion_offsets offsets finals objects) i
      ≡ some (completion_offset offsets (find_final (subgroup_of object) finals))
completion_offsets-at offsets finals [] i object e = cc
completion_offsets-at offsets finals (o ∷ objects) zero object e = ground (arith, e)
completion_offsets-at offsets finals (o ∷ objects) (suc i) object e =
    completion_offsets-at offsets finals objects i object e

object_offsets_of-at :
    (paced : Bool) (first : Option ℕ) (objects : List CmsfObject) (i : ℕ) (object : CmsfObject)
    → object_at objects i ≡ some object
    → get_or (object_offsets_of paced first objects) i 0 ≡ object_offset paced first object
object_offsets_of-at paced first [] i object e = cc
object_offsets_of-at paced first (o ∷ objects) zero object e = ground (arith, e)
object_offsets_of-at paced first (o ∷ objects) (suc i) object e =
    object_offsets_of-at paced first objects i object e

-- For the object at each index of a plan, final_object_indices has an entry for its subgroup. The
-- entry's index leads to an object of the plan with the entry's id, which is of that subgroup and
-- which is_final_object_in_subgroup finds to be final in the plan. In an enabled GenerationAvailability
-- of the plan, the completion offset at the index is the offset of that final object.
pub new_availability-completion :
    (plan : List CmsfObject) (cycle_duration_us : ℕ) (paced : Bool) (now i : ℕ)
    (object : CmsfObject)
    → object_at plan i ≡ some object
    → (final : FinalObject) × (last : CmsfObject) × (find_final
          (subgroup_of object)
          (final_objects plan 0 [])
        ≡ some final)
      × (object_at plan final.index ≡ some last)
      × (last.object_id ≡ final.object_id)
      × (same_subgroup last object ≡ true)
      × (is_final_object_in_subgroup plan last ≡ true)
      × (offset_at
            (new_availability plan cycle_duration_us paced true now).subgroup_completion_offsets
            i
          ≡ some (object_offset paced (first_media_time plan none) last))
unfolding new_availability find_final
new_availability-completion plan cycle_duration_us paced now i object here =
    let k = subgroup_of object in
    let finals = final_objects plan 0 [] in
    let first = first_media_time plan none in
    let offsets = object_offsets_of paced first plan in
    elim (Option-cases (find_final k finals)) [
      | inl lost ↦ absurd (cc (final_objects-find plan 0 [] i object here, ap is_found lost))
      | inr (final, found) ↦
          let h = final_objects-IsLast plan k plan 0 [] final (λ i. ground arith) tt found in
          let points = h.points in
          (
            final,
            points.object,
            found,
            points.at_index,
            points.same_id,
            points.same,
            h.last points.object points.same points.same_id,
            completion_offsets-at offsets finals plan i object here
                ∙ ap (λ (x : Option FinalObject). some (completion_offset offsets x)) found
                ∙ ap some (
                    object_offsets_of-at paced first plan final.index points.object
                      points.at_index),
          )
    ]
