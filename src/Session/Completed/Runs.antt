-- ===== src/Session/Completed/Runs.antt =====
-- Runs of BoundedSubgroupCompletionTracker (src/transport/moqt_session.cpp): the subgroups that were
-- inserted are those that are contained.
use moqxr.Common.{
  ℕ, ◌+◌, ◌≤◌, ◌≡◌, refl, Bool, false, ◌&&◌, ◌||◌, List, [], ◌∷◌, arith, ◌==◌, length, nat_eq, All,
}
use moqxr.Common.Assoc.{lookup}
use moqxr.Common.Bytes.{IsU64}
use moqxr.Session.Completed.{
  previous_range, CompletionTracker, contains, insert, storage_entry_count, empty_tracker,
  maximum_sparse_ranges,
}
use moqxr.Session.Completed.Tracker.{IsValid, insert-Inserts, storage_bound}

-- The subgroups of a session, in the order in which they end, each a group and a Subgroup ID.
abbrev pub insert_all : CompletionTracker → List (ℕ × ℕ) → CompletionTracker
insert_all t [] = t
insert_all t ((g, s) ∷ ended) = insert_all (insert g s t).1 ended

insert_all-IsValid :
    (t : CompletionTracker) (ended : List (ℕ × ℕ))
    → IsValid t
    → All (λ e. IsU64 e.0) ended
    → IsValid (insert_all t ended)
insert_all-IsValid t [] v u = v
insert_all-IsValid t ((g, s) ∷ ended) v u =
    insert_all-IsValid (insert g s t).1 ended (insert-Inserts g s g s t v u.0).valid u.1

empty-IsValid : IsValid empty_tracker
unfolding empty_tracker
empty-IsValid = omega arith

-- However many subgroups, of 64-bit groups, are inserted into a new tracker, it stores at most 512
-- entries, and at most 256 ranges.
insert_all-storage :
    (ended : List (ℕ × ℕ))
    → All (λ e. IsU64 e.0) ended
    → (storage_entry_count (insert_all empty_tracker ended) ≤ 512)
      × ((insert_all empty_tracker ended).range_count ≤ maximum_sparse_ranges)
insert_all-storage ended u =
    let v = insert_all-IsValid empty_tracker ended empty-IsValid u in (storage_bound _ v, v.bounded)

unfoldable pub mem_pair : ℕ → ℕ → List (ℕ × ℕ) → Bool
mem_pair x j [] = false
mem_pair x j ((g, s) ∷ ended) = (s == j && g == x) || mem_pair x j ended

exhausted_stays :
    (t : CompletionTracker) (ended : List (ℕ × ℕ))
    → IsValid t
    → All (λ e. IsU64 e.0) ended
    → (insert_all t ended).exhausted ≡ false
    → t.exhausted ≡ false
exhausted_stays t [] v u h = h
exhausted_stays t ((g, s) ∷ ended) v u h =
    let step = insert-Inserts g s g s t v u.0 in
    let later = exhausted_stays (insert g s t).1 ended step.valid u.1 h in
    ground (arith, step.exhausts, later)

insert_all-contains :
    (t : CompletionTracker) (ended : List (ℕ × ℕ)) (x j : ℕ)
    → IsValid t
    → All (λ e. IsU64 e.0) ended
    → (insert_all t ended).exhausted ≡ false
    → contains (insert_all t ended) x j ≡ (contains t x j || mem_pair x j ended)
unfolding mem_pair
insert_all-contains t [] x j v u h = ground arith
insert_all-contains t ((g, s) ∷ ended) x j v u h =
    let step = insert-Inserts g s x j t v u.0 in
    let kept = exhausted_stays (insert g s t).1 ended step.valid u.1 h in
    let later = insert_all-contains (insert g s t).1 ended x j step.valid u.1 h in
    ground (arith, step.exhausts, step.holds, kept, later)

insert_all-room :
    (t : CompletionTracker) (ended : List (ℕ × ℕ))
    → IsValid t
    → All (λ e. IsU64 e.0) ended
    → t.range_count + length ended ≤ maximum_sparse_ranges
    → t.exhausted ≡ false
    → (insert_all t ended).exhausted ≡ false
insert_all-room t [] v u h e = e
insert_all-room t ((g, s) ∷ ended) v u h e =
    let step = insert-Inserts g s g s t v u.0 in
    insert_all-room (insert g s t).1 ended step.valid u.1 (omega (arith, step.grows))
      (ground (arith, step.exhausts, step.refuses))

-- At most 256 subgroups, of 64-bit groups, do not exhaust a new tracker.
pub insert_all-not_exhausted :
    (ended : List (ℕ × ℕ))
    → All (λ e. IsU64 e.0) ended
    → length ended ≤ maximum_sparse_ranges
    → (insert_all empty_tracker ended).exhausted ≡ false
unfolding empty_tracker
insert_all-not_exhausted ended u h =
    insert_all-room empty_tracker ended empty-IsValid u (omega arith) refl

-- A tracker that began empty and is not exhausted contains exactly the subgroups that were
-- inserted, of 64-bit groups, in whatever order.
pub insert_all-exact :
    (ended : List (ℕ × ℕ)) (x j : ℕ)
    → All (λ e. IsU64 e.0) ended
    → (insert_all empty_tracker ended).exhausted ≡ false
    → contains (insert_all empty_tracker ended) x j ≡ mem_pair x j ended
unfolding contains empty_tracker previous_range lookup
insert_all-exact ended x j u h = insert_all-contains empty_tracker ended x j empty-IsValid u h
