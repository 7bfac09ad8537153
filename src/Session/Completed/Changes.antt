-- ===== src/Session/Completed/Changes.antt =====
-- What insert of BoundedSubgroupCompletionTracker (src/transport/moqt_session.cpp) does to the ranges of
-- one Subgroup ID.
use moqxr.Common.{
  ℕ, Option-cases, inl, inr, ◌+◌, ◌≤◌, ◌≡◌, true, ◌||◌, Option, none, some, [], ◌∷◌, arith, leb,
  ◌==◌, length,
}
use moqxr.Common.Bytes.{IsU64}
use moqxr.Session.Completed.{
  Ranges, next_range, previous_range, emplace_range, range_has, joins_next, joins_previous, Change,
  unchanged, grown, merged, apart, change_ranges,
}
use moqxr.Session.Completed.Ranges.{
  Apart, covers, RangeAfter, has-covers, RangeAbove, RangeBefore, previous-before, FarBefore,
  next-above, set_last-Apart, set_last-covers, emplace_range-Apart, emplace_range-covers,
  grow_next-Added, merge-Added,
}

-- What each change of insert for the group g means for the group x.
abbrev pub Outcome : ℕ → ℕ → Ranges → Change → Type 0
Outcome x g rs unchanged = covers g rs ≡ true
Outcome x g rs (grown rs') =
    Apart 0 rs'
    × (length rs' ≡ length rs)
    × (1 ≤ length rs)
    × (covers x rs' ≡ (covers x rs || g == x))
Outcome x g rs (merged rs') =
    Apart 0 rs'
    × (length rs' + 1 ≡ length rs)
    × (2 ≤ length rs)
    × (covers x rs' ≡ (covers x rs || g == x))
Outcome x g rs apart =
    Apart 0 (emplace_range g g rs)
    × (length (emplace_range g g rs) ≡ length rs + 1)
    × (covers x (emplace_range g g rs) ≡ (covers x rs || g == x))

-- How many ranges there are at least.
abbrev found : Option (ℕ × ℕ) → ℕ
found none = 0
found (some range) = 1

found-le-length :
    (g : ℕ) (rs : Ranges) → found (previous_range g rs) + found (next_range g rs) ≤ length rs
unfolding previous_range next_range
found-le-length g [] = omega arith
found-le-length g ((f, l) ∷ rs) = ground (arith, found-le-length g rs, next-found g rs)
  where
    next-found : (g : ℕ) (rs : Ranges) → found (next_range g rs) ≤ length rs
    next-found g [] = omega arith
    next-found g ((f, l) ∷ rs) = ground (arith, next-found g rs)

joins_next-eq : (g f l : ℕ) → IsU64 g → IsU64 f → joins_next g (some (f, l)) ≡ (g + 1 == f)
unfolding joins_next
joins_next-eq g f l u v = ground arith

joins_previous-eq : (g f l : ℕ) → IsU64 l → IsU64 g → joins_previous g (some (f, l)) ≡ (l + 1 == g)
unfolding joins_previous
joins_previous-eq g f l u v = ground arith

module _ (x g : ℕ) (rs : Ranges) (a : Apart 0 rs) (u : IsU64 g) where
  Outcome-alone :
      previous_range g rs ≡ none → next_range g rs ≡ none → Outcome x g rs (change_ranges g rs)
  unfolding change_ranges range_has joins_previous joins_next
  Outcome-alone p q =
      rw (p, q) (ground (arith, emplace_range-Apart 0 g rs a, emplace_range-covers 0 g x rs a))

  module _ {f l : ℕ} (p : previous_range g rs ≡ none) (q : next_range g rs ≡ some (f, l)) where
    Outcome-first : Outcome x g rs (change_ranges g rs)
    unfolding change_ranges range_has joins_previous
    Outcome-first =
        let far : FarBefore g (previous_range g rs) = rw p tt in
        let above : RangeAbove 0 g (some (f, l)) = rw q at (next-above 0 g rs a) in
        let many = rw (p, q) at (found-le-length g rs) in
        let after : g + 2 ≤ f → RangeAfter g (next_range g rs) = λ h. rw q h in
        rw (p, q, joins_next-eq g f l u (omega arith))
          (ground (
            arith,
            emplace_range-Apart 0 g rs a,
            emplace_range-covers 0 g x rs a,
            grow_next-Added 0 g f l x rs a,
          ))

  module _ {f l : ℕ} (p : previous_range g rs ≡ some (f, l)) where
    before : RangeBefore 0 g (some (f, l))
    before = rw p at (previous-before 0 g rs a)

    has : leb g l ≡ covers g rs
    unfolding range_has
    has = rw p at (has-covers 0 g rs a)

    far : l + 2 ≤ g → FarBefore g (previous_range g rs)
    far h = rw p h

    Outcome-last : next_range g rs ≡ none → Outcome x g rs (change_ranges g rs)
    unfolding change_ranges range_has joins_next
    Outcome-last q =
        let many = rw (p, q) at (found-le-length g rs) in
        let after : RangeAfter g (next_range g rs) = rw q tt in
        rw (p, q, joins_previous-eq g f l before.3 u)
          (ground (
            arith,
            before,
            has,
            far,
            set_last-Apart 0 g f l rs a u,
            set_last-covers 0 g f l x rs a,
            emplace_range-Apart 0 g rs a,
            emplace_range-covers 0 g x rs a,
          ))

    Outcome-between :
        {f' l' : ℕ} → next_range g rs ≡ some (f', l') → Outcome x g rs (change_ranges g rs)
    unfolding change_ranges range_has
    Outcome-between {f'} {l'} q =
        let above : RangeAbove 0 g (some (f', l')) = rw q at (next-above 0 g rs a) in
        let many = rw (p, q) at (found-le-length g rs) in
        let after : g + 2 ≤ f' → RangeAfter g (next_range g rs) = λ h. rw q h in
        rw (p, q, joins_previous-eq g f l before.3 u, joins_next-eq g f' l' u (omega arith))
          (ground (
            arith,
            before,
            has,
            far,
            set_last-Apart 0 g f l rs a u,
            set_last-covers 0 g f l x rs a,
            emplace_range-Apart 0 g rs a,
            emplace_range-covers 0 g x rs a,
            grow_next-Added 0 g f' l' x rs a,
            merge-Added 0 g f l f' l' x rs a,
          ))

  pub change_ranges-Outcome : Outcome x g rs (change_ranges g rs)
  change_ranges-Outcome = elim (Option-cases (previous_range g rs)) [
    | inl p ↦ elim (Option-cases (next_range g rs)) [
      | inl q ↦ Outcome-alone p q
      | inr (n, q) ↦ Outcome-first p q
    ]
    | inr (r, p) ↦ elim (Option-cases (next_range g rs)) [
      | inl q ↦ Outcome-last p q
      | inr (n, q) ↦ Outcome-between p q
    ]
  ]
