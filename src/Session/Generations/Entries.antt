-- ===== src/Session/Generations/Entries.antt =====
-- final_object_indices of GenerationAvailability (src/transport/moqt_session.cpp): the entry that a
-- subgroup has behind one more object, and that each object of a plan brings one.
use moqxr.Common.{
  ℕ, zero, suc, ◌+◌, ◌≡◌, ◌↔◌, refl, sym, ◌∙◌, Bool, true, false, Option, none, some, List, [], ◌∷◌,
  arith, leb, if◌then◌else◌, Bool-cases, inl, inr, text_key, ap,
}
use moqxr.Session.Subscriptions.{CmsfObject}
use moqxr.Session.Generations.{
  SubgroupKey, same_key, subgroup_of, FinalObject, final_entry, note_final, final_objects,
  find_final,
}

abbrev pub object_at : List CmsfObject → ℕ → Option CmsfObject
object_at [] index = none
object_at (object ∷ objects) zero = some object
object_at (object ∷ objects) (suc index) = object_at objects index

pub same_key_iff :
    (a b : SubgroupKey)
    → (same_key a b ≡ true) ↔ (
        (a.track_name ≡ b.track_name) × (a.group_id ≡ b.group_id) × (a.subgroup_id ≡ b.subgroup_id))
same_key_iff a b = ground (arith, text_key.beq_iff a.track_name b.track_name)

pub same_key_refl : (a : SubgroupKey) → same_key a a ≡ true
same_key_refl a = (same_key_iff a a).1 (refl, refl, refl)

pub same_key_left : (a b c : SubgroupKey) → same_key a b ≡ true → same_key a c ≡ same_key b c
same_key_left a b c h =
    let (track, group, subgroup) = (same_key_iff a b).0 h in rw (track, group, subgroup) refl

pub same_key_joins :
    (a b c : SubgroupKey) → same_key a c ≡ true → same_key b c ≡ true → same_key a b ≡ true
same_key_joins a b c h k =
    let (track, group, subgroup) = (same_key_iff a c).0 h in
    let (track', group', subgroup') = (same_key_iff b c).0 k in
    (same_key_iff a b).1 (track ∙ sym track', group ∙ sym group', subgroup ∙ sym subgroup')

pub elsewhere :
    (a b c : SubgroupKey) → same_key b c ≡ true → same_key a c ≡ false → same_key a b ≡ false
elsewhere a b c h k = elim (Bool-cases (same_key a b)) [
  | inl joined ↦ absurd (cc (same_key_left a b c joined, h, k))
  | inr apart ↦ apart
]

-- The entry of a subgroup behind one more of its objects.
abbrev pub newer : ℕ → CmsfObject → Option FinalObject → Option FinalObject
newer index object none = some (final_entry index object)
newer index object (some final) =
    if leb final.object_id object.object_id then some (final_entry index object) else some final

pub find_final-note_final :
    (k : SubgroupKey) (index : ℕ) (object : CmsfObject) (finals : List FinalObject)
    → find_final k (note_final index object finals) ≡ (
        if same_key (subgroup_of object) k
        then newer index object (find_final k finals)
        else find_final k finals)
unfolding find_final note_final
find_final-note_final k index object [] = refl
find_final-note_final k index object (final ∷ finals) =
    elim (Bool-cases (same_key final.subgroup (subgroup_of object))) [
      | inl same ↦
          let e = same_key_left final.subgroup (subgroup_of object) k same in
          elim (Bool-cases (same_key (subgroup_of object) k)) [
            | inl on ↦ elim (Bool-cases (leb final.object_id object.object_id)) [
              | inl above ↦ rw (same, above, e, on, above) refl
              | inr below ↦ rw (same, below, e, on, below) refl
            ]
            | inr off ↦ elim (Bool-cases (leb final.object_id object.object_id)) [
              | inl above ↦ rw (same, above, e, off) refl
              | inr below ↦ rw (same, below, e, off) refl
            ]
          ]
      | inr other ↦ elim (Bool-cases (same_key final.subgroup k)) [
        | inl on ↦ elim (Bool-cases (same_key (subgroup_of object) k)) [
          | inl also ↦
              absurd (cc (same_key_joins final.subgroup (subgroup_of object) k on also, other))
          | inr off ↦ rw (other, on, off) refl
        ]
        | inr off ↦ rw (other, off) (find_final-note_final k index object finals)
      ]
    ]

abbrev pub is_found : Option FinalObject → Bool
is_found none = false
is_found (some final) = true

newer-is_found :
    (index : ℕ) (object : CmsfObject) (old : Option FinalObject)
    → is_found (newer index object old) ≡ true
newer-is_found index object none = refl
newer-is_found index object (some final) =
    elim (Bool-cases (leb final.object_id object.object_id)) [
      | inl above ↦ rw above refl
      | inr below ↦ rw below refl
    ]

-- An entry of a subgroup stays through the objects, and each object brings one for its subgroup.
final_objects-keep :
    (k : SubgroupKey) (objects : List CmsfObject) (index : ℕ) (finals : List FinalObject)
    → is_found (find_final k finals) ≡ true
    → is_found (find_final k (final_objects objects index finals)) ≡ true
unfolding final_objects
final_objects-keep k [] index finals h = h
final_objects-keep k (object ∷ objects) index finals h =
    final_objects-keep k objects (index + 1) (note_final index object finals)
      (elim (Bool-cases (same_key (subgroup_of object) k)) [
        | inl also ↦
            rw (find_final-note_final k index object finals, also)
              (newer-is_found index object (find_final k finals))
        | inr off ↦ rw (find_final-note_final k index object finals, off) h
      ])

pub final_objects-find :
    (objects : List CmsfObject) (index : ℕ) (finals : List FinalObject) (i : ℕ)
    (object : CmsfObject)
    → object_at objects i ≡ some object
    → is_found (find_final (subgroup_of object) (final_objects objects index finals)) ≡ true
unfolding final_objects
final_objects-find [] index finals i object e = cc
final_objects-find (o ∷ objects) index finals zero object e =
    final_objects-keep (subgroup_of object) objects (index + 1) (note_final index o finals) (
      rw
        (
          find_final-note_final (subgroup_of object) index o finals,
          ap (λ (x : Option CmsfObject). same_at x) e ∙ same_key_refl (subgroup_of object),
        )
        (newer-is_found index o (find_final (subgroup_of object) finals)))
  where
    same_at : Option CmsfObject → Bool
    same_at none = false
    same_at (some x) = same_key (subgroup_of x) (subgroup_of object)
final_objects-find (o ∷ objects) index finals (suc i) object e =
    final_objects-find objects (index + 1) (note_final index o finals) i object e
