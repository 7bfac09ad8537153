-- ===== src/Session/Completed/Tracker.antt =====
-- BoundedSubgroupCompletionTracker (src/transport/moqt_session.cpp) as a set of subgroups, with the
-- bound on what it stores.
use moqxr.Common.{
  ℕ, ◌+◌, ◌≤◌, ◌≡◌, refl, subst, Bool, true, false, not, ◌&&◌, ◌||◌, some, inl, inr, List, [], ◌∷◌,
  arith, leb, ◌==◌, if◌then◌else◌, length, nat_eq, Option-cases, Bool-cases, nat_beq_iff,
}
use moqxr.Common.Assoc.{
  lookup, erase, Distinct, AllValues, total, lookup-insert, lookup-erase, Distinct-insert,
  Distinct-erase, AllValues-lookup, AllValues-insert, AllValues-erase, total-insert, total-erase,
  insert-insert, erase-insert_new, weight_of,
}
use moqxr.Common.Assoc
use moqxr.Common.Bytes.{IsU64, sub64}
use moqxr.Session.Completed.{
  Ranges, emplace_range, Change, unchanged, grown, merged, apart, change_ranges, CompletionTracker,
  contains, insert, storage_entry_count, or_none, is_new, emplaced, put_ranges, insert_apart,
  apply_change, maximum_sparse_ranges,
}
use moqxr.Session.Completed.Ranges.{Apart, covers, has-covers}
use moqxr.Session.Completed.Changes.{Outcome, change_ranges-Outcome}

abbrev pub IsKept : Ranges → Type 0
IsKept ranges = Apart 0 ranges × (1 ≤ length ranges)

pub record IsValid (t : CompletionTracker) : Type 0 where
  pub distinct : Distinct t.ranges_by_subgroup
  pub kept : AllValues IsKept t.ranges_by_subgroup
  pub counted : total length t.ranges_by_subgroup ≡ t.range_count
  pub bounded : t.range_count ≤ maximum_sparse_ranges

abbrev found_in : CompletionTracker → ℕ → Ranges
found_in t subgroup_id = or_none (lookup subgroup_id t.ranges_by_subgroup)

found-Apart : (t : CompletionTracker) (s : ℕ) → IsValid t → Apart 0 (found_in t s)
found-Apart t s v = elim (Option-cases (lookup s t.ranges_by_subgroup)) [
  | inl p ↦ rw p tt
  | inr (rs, p) ↦ rw p (AllValues-lookup IsKept s t.ranges_by_subgroup v.kept p).0
]

contains-covers :
    (t : CompletionTracker) (g s : ℕ) → IsValid t → contains t g s ≡ covers g (found_in t s)
unfolding contains
contains-covers t g s v = has-covers 0 g (found_in t s) (found-Apart t s v)

-- try_emplace in front of an assignment changes nothing.
put-eq :
    (s : ℕ) (rs : Ranges) (m : List (ℕ × Ranges))
    → Assoc.insert s rs (emplaced s m) ≡ Assoc.insert s rs m
put-eq s rs m = elim (Bool-cases (is_new (lookup s m))) [
  | inl p ↦ rw p (insert-insert s rs [] m)
  | inr p ↦ rw p
]

unplace-eq :
    (s : ℕ) (m : List (ℕ × Ranges))
    → (if is_new (lookup s m) then erase s (emplaced s m) else emplaced s m) ≡ m
unplace-eq s m = elim (Option-cases (lookup s m)) [
  | inl p ↦ rw p (erase-insert_new s [] m p)
  | inr (r, p) ↦ rw p
]

-- What a call of insert for the group g of subgroup s leaves, seen from the group x of subgroup j.
pub record Inserts (g s x j : ℕ) (t : CompletionTracker) (answer : Bool × CompletionTracker)
    : Type 0 where
  pub valid : IsValid answer.1
  pub holds : contains answer.1 x j ≡ (contains t x j || (answer.0 && (s == j && g == x)))
  pub exhausts : answer.1.exhausted ≡ (t.exhausted || not answer.0)
  pub refuses : (answer.0 || t.range_count == maximum_sparse_ranges) ≡ true
  pub grows : answer.1.range_count ≤ t.range_count + 1

module _ (g s x j : ℕ) (t : CompletionTracker) (v : IsValid t) where
  counted_once : weight_of length (lookup s t.ranges_by_subgroup) ≡ length (found_in t s)
  counted_once = elim (Option-cases (lookup s t.ranges_by_subgroup)) [
    | inl p ↦ rw p
    | inr (r, p) ↦ rw p
  ]

  put-IsValid :
      (rs : Ranges) (n : ℕ)
      → IsKept rs
      → n + length (found_in t s) ≡ t.range_count + length rs
      → n ≤ maximum_sparse_ranges
      → IsValid (record (put_ranges s rs t) { range_count = n })
  put-IsValid rs n k e b = rw (put-eq s rs t.ranges_by_subgroup) (record {
    distinct = Distinct-insert s rs t.ranges_by_subgroup v.distinct;
    kept = AllValues-insert IsKept s rs t.ranges_by_subgroup v.kept k;
    counted =
        omega (arith, total-insert length s rs t.ranges_by_subgroup, counted_once, v.counted, e);
    bounded = b;
  })

  put-covers :
      (rs : Ranges)
      → covers x rs ≡ (covers x (found_in t s) || g == x)
      → covers x (or_none (if s == j then some rs else lookup j t.ranges_by_subgroup))
        ≡ (covers x (found_in t j) || (s == j && g == x))
  put-covers rs c = elim (Bool-cases (s == j)) [
    | inl h ↦
        rw h
          (subst (λ k. covers x rs ≡ (covers x (found_in t k) || g == x)) ((nat_beq_iff s j).0 h) c)
    | inr h ↦ rw h (ground arith)
  ]

  -- A change that puts ranges with one more group is an insertion.
  put-Inserts :
      (rs : Ranges) (n : ℕ)
      → IsKept rs
      → n + length (found_in t s) ≡ t.range_count + length rs
      → n ≤ maximum_sparse_ranges
      → n ≤ t.range_count + 1
      → covers x rs ≡ (covers x (found_in t s) || g == x)
      → Inserts g s x j t (true, record (put_ranges s rs t) { range_count = n })
  put-Inserts rs n k e b small c =
      let valid = put-IsValid rs n k e b in
      record {
        valid = valid;
        holds =
            rw
              (
                contains-covers _ x j valid,
                contains-covers t x j v,
                put-eq s rs t.ranges_by_subgroup,
                lookup-insert s j rs t.ranges_by_subgroup,
              )
              (put-covers rs c);
        exhausts = ground arith;
        refuses = refl;
        grows = small;
      }

  same_place : s ≡ j → g ≡ x → covers g (found_in t s) ≡ covers x (found_in t j)
  same_place p q = cc

  keep-covers :
      (answer : Bool)
      → (answer ≡ true → covers g (found_in t s) ≡ true)
      → covers x (found_in t j) ≡ (covers x (found_in t j) || (answer && (s == j && g == x)))
  keep-covers answer c = ground (arith, same_place, c, nat_beq_iff s j, nat_beq_iff g x)

  keep-Inserts :
      (answer : Bool) (exhausted : Bool)
      → (answer ≡ true → covers g (found_in t s) ≡ true)
      → exhausted ≡ (t.exhausted || not answer)
      → (answer || t.range_count == maximum_sparse_ranges) ≡ true
      → Inserts g s x j t (answer, record t { exhausted = exhausted })
  keep-Inserts answer exhausted c e r =
      let valid : IsValid (record t { exhausted = exhausted }) = record {
        distinct = v.distinct;
        kept = v.kept;
        counted = v.counted;
        bounded = v.bounded;
      } in
      record {
        valid = valid;
        holds =
            rw
              (
                contains-covers (record t { exhausted = exhausted }) x j valid,
                contains-covers t x j v,
              )
              (keep-covers answer c);
        exhausts = e;
        refuses = r;
        grows = omega arith;
      }

  emplaced-eq :
      covers g (found_in t s) ≡ true → emplaced s t.ranges_by_subgroup ≡ t.ranges_by_subgroup
  unfolding covers
  emplaced-eq c = elim (Option-cases (lookup s t.ranges_by_subgroup)) [
    | inl p ↦ absurd (cc (rw p at c))
    | inr (r, p) ↦ rw p
  ]

  apart-Inserts : Outcome x g (found_in t s) apart → Inserts g s x j t (insert_apart g s t)
  apart-Inserts o = elim (Bool-cases (leb maximum_sparse_ranges t.range_count)) [
    | inl full ↦
        rw (full, unplace-eq s t.ranges_by_subgroup)
          (keep-Inserts false true (λ h. absurd (cc)) (ground arith)
            (ground (arith, full, v.bounded)))
    | inr room ↦ rw room (
        put-Inserts (emplace_range g g (found_in t s)) (t.range_count + 1) (o.0, omega (arith, o.1))
          (omega (arith, o.1)) (ground arith) (omega arith) o.2)
  ]

  found-le : length (found_in t s) ≤ t.range_count
  found-le = omega (arith, total-erase length s t.ranges_by_subgroup, counted_once, v.counted)

  merged_count :
      (rs : Ranges)
      → length rs + 1 ≡ length (found_in t s)
      → 2 ≤ length (found_in t s)
      → sub64 t.range_count 1 + length (found_in t s) ≡ t.range_count + length rs
  merged_count rs e h = omega (arith, e, h, v.bounded, found-le)

  change-Inserts :
      (c : Change) → Outcome x g (found_in t s) c → Inserts g s x j t (apply_change c g s t)
  change-Inserts unchanged o =
      rw (emplaced-eq o) (keep-Inserts true t.exhausted (λ h. o) (ground arith) refl)
  change-Inserts (grown rs) o =
      put-Inserts rs t.range_count (o.0, omega (arith, o)) (omega (arith, o)) v.bounded
        (omega arith) o.3
  change-Inserts (merged rs) o =
      put-Inserts rs (sub64 t.range_count 1) (o.0, omega (arith, o)) (merged_count rs o.1 o.2)
        (omega (arith, v.bounded, found-le, o.2)) (omega (arith, v.bounded, found-le, o.2)) o.3
  change-Inserts apart o = apart-Inserts o

-- On a valid tracker, insert of a 64-bit group keeps the tracker valid; afterwards exactly those
-- subgroups are contained that were, and the one inserted if the answer is true; an answer of false
-- marks the tracker as exhausted, and an answer of true leaves the mark as it is; only a tracker of 256
-- ranges answers false, and the number of ranges grows by one at most.
pub insert-Inserts :
    (g s x j : ℕ) (t : CompletionTracker) → IsValid t → IsU64 g → Inserts g s x j t (insert g s t)
unfolding insert
insert-Inserts g s x j t v u =
    change-Inserts g s x j t v (change_ranges g (found_in t s))
      (change_ranges-Outcome x g (found_in t s) (found-Apart t s v) u)

length-le-total : (m : List (ℕ × Ranges)) → AllValues IsKept m → length m ≤ total length m
length-le-total [] k = omega arith
length-le-total ((s, rs) ∷ m) k = omega (arith, k.0, length-le-total m k.1)

pub storage_bound : (t : CompletionTracker) → IsValid t → storage_entry_count t ≤ 512
unfolding storage_entry_count
storage_bound t v = omega (arith, length-le-total t.ranges_by_subgroup v.kept, v.counted, v.bounded)
