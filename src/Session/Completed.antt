-- ===== src/Session/Completed.antt =====
-- BoundedSubgroupCompletionTracker of src/transport/moqt_session.cpp: which subgroups are complete, as
-- ranges of groups for each Subgroup ID. The map of ranges is a list of (first, last) by ascending
-- first; the map of subgroups has one entry to a Subgroup ID.
pub mod Ranges
pub mod Changes
pub mod Tracker
pub mod Runs
use moqxr.Common.{
  ℕ, ◌+◌, ◌-◌, ◌^◌, ◌≤◌, ◌≡◌, Bool, true, false, not, ◌&&◌, Option, none, some, List, [], ◌∷◌, ltb,
  leb, ◌==◌, if◌then◌else◌, length, nat_eq,
}
use moqxr.Common.Assoc.{lookup, erase}
use moqxr.Common.Assoc
use moqxr.Common.Bytes.{u64_mod, add64, sub64}

abbrev pub Ranges : Type 0
Ranges = List (ℕ × ℕ)

abbrev max_u64 : ℕ
max_u64 = 18446744073709551615

-- kMaximumSparseRanges
abbrev pub maximum_sparse_ranges : ℕ
maximum_sparse_ranges = 256

-- ranges.upper_bound(group_id), if it is not the end.
unfoldable pub next_range : ℕ → Ranges → Option (ℕ × ℕ)
next_range group_id [] = none
next_range group_id ((first, last) ∷ ranges) =
    if ltb group_id first then some (first, last) else next_range group_id ranges

abbrev or_range : ℕ × ℕ → Option (ℕ × ℕ) → Option (ℕ × ℕ)
or_range range none = some range
or_range range (some later) = some later

-- The range before upper_bound(group_id), if that is not the beginning.
unfoldable pub previous_range : ℕ → Ranges → Option (ℕ × ℕ)
previous_range group_id [] = none
previous_range group_id ((first, last) ∷ ranges) =
    let later = previous_range group_id ranges in
    if ltb group_id first then none else or_range (first, last) later

-- previous_it->second = last
unfoldable pub set_last : ℕ → ℕ → Ranges → Ranges
set_last key last [] = []
set_last key last ((first, old) ∷ ranges) =
    if first == key then (first, last) ∷ ranges else (first, old) ∷ set_last key last ranges

unfoldable pub erase_range : ℕ → Ranges → Ranges
erase_range key [] = []
erase_range key ((first, last) ∷ ranges) =
    if first == key then ranges else (first, last) ∷ erase_range key ranges

unfoldable pub emplace_range : ℕ → ℕ → Ranges → Ranges
emplace_range first last [] = (first, last) ∷ []
emplace_range first last ((f, l) ∷ ranges) =
    if ltb first f
    then (first, last) ∷ (f, l) ∷ ranges
    else if first == f
    then (f, l) ∷ ranges
    else (f, l) ∷ emplace_range first last ranges

unfoldable pub range_has : ℕ → Option (ℕ × ℕ) → Bool
range_has group_id none = false
range_has group_id (some (first, last)) = leb group_id last

unfoldable pub joins_next : ℕ → Option (ℕ × ℕ) → Bool
joins_next group_id none = false
joins_next group_id (some (first, last)) = not (group_id == max_u64) && (add64 group_id 1 == first)

unfoldable pub joins_previous : ℕ → Option (ℕ × ℕ) → Bool
joins_previous group_id none = false
joins_previous group_id (some (first, last)) = not (last == max_u64) && (add64 last 1 == group_id)

-- What insert does to the ranges of its subgroup.
pub data Change : Type 0 where
  unchanged : Change
  -- The new ranges; their number stays.
  grown : Ranges → Change
  -- Two ranges became one.
  merged : Ranges → Change
  -- The group stands apart from every range.
  apart : Change

abbrev merge_ranges : Option (ℕ × ℕ) → Option (ℕ × ℕ) → Ranges → Ranges
merge_ranges (some (first, last)) (some (next, next_last)) ranges =
    erase_range next (set_last first next_last ranges)
merge_ranges _ _ ranges = ranges

abbrev extend_previous : ℕ → Option (ℕ × ℕ) → Ranges → Ranges
extend_previous group_id (some (first, last)) ranges = set_last first group_id ranges
extend_previous group_id none ranges = ranges

abbrev extend_next : ℕ → Option (ℕ × ℕ) → Ranges → Ranges
extend_next group_id (some (next, next_last)) ranges =
    emplace_range group_id next_last (erase_range next ranges)
extend_next group_id none ranges = ranges

unfoldable pub change_ranges : ℕ → Ranges → Change
unfolding range_has joins_next joins_previous
change_ranges group_id ranges =
    let next = next_range group_id ranges in
    let previous = previous_range group_id ranges in
    if range_has group_id previous
    then unchanged
    else if joins_previous group_id previous && joins_next group_id next
    then merged (merge_ranges previous next ranges)
    else if joins_previous group_id previous
    then grown (extend_previous group_id previous ranges)
    else if joins_next group_id next
    then grown (extend_next group_id next ranges)
    else apart

pub record CompletionTracker : Type 0 where
  pub ranges_by_subgroup : List (ℕ × Ranges)
  pub range_count : ℕ
  pub exhausted : Bool

unfoldable pub empty_tracker : CompletionTracker
empty_tracker = record { ranges_by_subgroup = []; range_count = 0; exhausted = false }

abbrev or_none : Option Ranges → Ranges
or_none none = []
or_none (some ranges) = ranges

abbrev is_new : Option Ranges → Bool
is_new none = true
is_new (some ranges) = false

-- ranges_by_subgroup_.try_emplace(subgroup_id)
abbrev emplaced : ℕ → List (ℕ × Ranges) → List (ℕ × Ranges)
emplaced subgroup_id map =
    if is_new (lookup subgroup_id map) then Assoc.insert subgroup_id [] map else map

unfoldable pub contains : CompletionTracker → ℕ → ℕ → Bool
unfolding range_has
contains t group_id subgroup_id =
    range_has group_id (previous_range group_id (or_none (lookup subgroup_id t.ranges_by_subgroup)))

abbrev put_ranges : ℕ → Ranges → CompletionTracker → CompletionTracker
put_ranges subgroup_id ranges t = record t {
  ranges_by_subgroup = Assoc.insert subgroup_id ranges (emplaced subgroup_id t.ranges_by_subgroup);
}

abbrev insert_apart : ℕ → ℕ → CompletionTracker → Bool × CompletionTracker
insert_apart group_id subgroup_id t =
    let found = lookup subgroup_id t.ranges_by_subgroup in
    let map = emplaced subgroup_id t.ranges_by_subgroup in
    if leb maximum_sparse_ranges t.range_count
    then (
      false,
      record t {
        ranges_by_subgroup = if is_new found then erase subgroup_id map else map;
        exhausted = true;
      },
    )
    else (
      true,
      record (put_ranges subgroup_id (emplace_range group_id group_id (or_none found)) t) {
        range_count = t.range_count + 1;
      },
    )

abbrev apply_change : Change → ℕ → ℕ → CompletionTracker → Bool × CompletionTracker
apply_change unchanged group_id subgroup_id t =
    (true, record t { ranges_by_subgroup = emplaced subgroup_id t.ranges_by_subgroup })
apply_change (grown ranges) group_id subgroup_id t = (true, put_ranges subgroup_id ranges t)
apply_change (merged ranges) group_id subgroup_id t =
    (true, record (put_ranges subgroup_id ranges t) { range_count = sub64 t.range_count 1 })
apply_change apart group_id subgroup_id t = insert_apart group_id subgroup_id t

unfoldable pub insert : ℕ → ℕ → CompletionTracker → Bool × CompletionTracker
unfolding change_ranges
insert group_id subgroup_id t =
    apply_change (change_ranges group_id (or_none (lookup subgroup_id t.ranges_by_subgroup)))
      group_id subgroup_id t

unfoldable pub clear : CompletionTracker → CompletionTracker
unfolding empty_tracker
clear t = empty_tracker

unfoldable pub storage_entry_count : CompletionTracker → ℕ
storage_entry_count t = t.range_count + length t.ranges_by_subgroup
