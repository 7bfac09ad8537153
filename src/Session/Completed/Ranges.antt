-- ===== src/Session/Completed/Ranges.antt =====
-- The ranges of BoundedSubgroupCompletionTracker (src/transport/moqt_session.cpp) as a set of groups.
use moqxr.Common.{
  ℕ, ◌+◌, ◌≤◌, ◌<◌, ◌≡◌, refl, Bool, false, ◌&&◌, ◌||◌, Option, none, some, [], ◌∷◌, arith, leb,
  ◌==◌, length,
}
use moqxr.Common.Bytes.{IsU64}
use moqxr.Session.Completed.{
  Ranges, next_range, previous_range, set_last, erase_range, emplace_range, range_has,
}

-- The ranges begin at n or above, ascend, and have a group between any two.
abbrev pub Apart : ℕ → Ranges → Type 0
Apart n [] = Unit {0}
Apart n ((first, last) ∷ ranges) =
    (n ≤ first) × (first ≤ last) × IsU64 last × Apart (last + 2) ranges

unfoldable pub covers : ℕ → Ranges → Bool
covers x [] = false
covers x ((first, last) ∷ ranges) = (leb first x && leb x last) || covers x ranges

-- A range that is not next to the group begins two groups later.
abbrev pub RangeAfter : ℕ → Option (ℕ × ℕ) → Type 0
RangeAfter x none = Unit {0}
RangeAfter x (some (first, last)) = x + 2 ≤ first

covers-below : (n x : ℕ) (rs : Ranges) → Apart n rs → x < n → covers x rs ≡ false
unfolding covers
covers-below n x [] a h = refl
covers-below n x ((f, l) ∷ rs) a h = ground (arith, covers-below (l + 2) x rs)

previous-below : (n x : ℕ) (rs : Ranges) → Apart n rs → x < n → previous_range x rs ≡ none
unfolding previous_range
previous-below n x [] a h = refl
previous-below n x ((f, l) ∷ rs) a h = ground arith

-- The binary search finds the range that has the group.
pub has-covers :
    (n x : ℕ) (rs : Ranges) → Apart n rs → range_has x (previous_range x rs) ≡ covers x rs
unfolding range_has previous_range covers
has-covers n x [] a = refl
has-covers n x ((f, l) ∷ rs) a = ground (
  arith,
  has-covers (l + 2) x rs a.3,
  covers-below (l + 2) x rs a.3,
  previous-below (l + 2) x rs a.3,
)

Apart-weaken : (m n : ℕ) (rs : Ranges) → m ≤ n → Apart n rs → Apart m rs
Apart-weaken m n [] h a = tt
Apart-weaken m n ((f, l) ∷ rs) h a = (omega arith, a.1, a.2, a.3)

abbrev pub RangeAbove : ℕ → ℕ → Option (ℕ × ℕ) → Type 0
RangeAbove n x none = Unit {0}
RangeAbove n x (some (first, last)) = (n ≤ first) × (x < first) × (first ≤ last) × IsU64 last

abbrev pub RangeBefore : ℕ → ℕ → Option (ℕ × ℕ) → Type 0
RangeBefore n x none = Unit {0}
RangeBefore n x (some (first, last)) = (n ≤ first) × (first ≤ last) × (first ≤ x) × IsU64 last

pub previous-before : (n x : ℕ) (rs : Ranges) → Apart n rs → RangeBefore n x (previous_range x rs)
unfolding previous_range
previous-before n x [] a = tt
previous-before n x ((f, l) ∷ rs) a = ground (arith, previous-before (l + 2) x rs a.3)

Apart-next :
    (n x : ℕ) (rs : Ranges)
    → previous_range x rs ≡ none
    → Apart n rs
    → RangeAfter x (next_range x rs)
    → Apart (x + 2) rs
unfolding previous_range next_range
Apart-next n x [] p a h = tt
Apart-next n x ((f, l) ∷ rs) p a h = ground arith

abbrev pub FarBefore : ℕ → Option (ℕ × ℕ) → Type 0
FarBefore g none = Unit {0}
FarBefore g (some (first, last)) = last + 2 ≤ g

erase-next :
    (n g f l x : ℕ) (rs : Ranges)
    → previous_range g rs ≡ none
    → next_range g rs ≡ some (f, l)
    → Apart n rs
    → Apart (l + 2) (erase_range f rs)
      × (length (erase_range f rs) + 1 ≡ length rs)
      × (f ≤ l)
      × IsU64 l
      × (covers x rs ≡ ((leb f x && leb x l) || covers x (erase_range f rs)))
unfolding previous_range next_range erase_range covers
erase-next n g f l x [] p q a = absurd (cc)
erase-next n g f l x ((f0, l0) ∷ rs) p q a = ground arith

pub next-above : (n g : ℕ) (rs : Ranges) → Apart n rs → RangeAbove n g (next_range g rs)
unfolding next_range
next-above n g [] a = tt
next-above n g ((f, l) ∷ rs) a = ground (arith, next-above (l + 2) g rs a.3)

pub set_last-Apart :
    (n g f l : ℕ) (rs : Ranges)
    → Apart n rs
    → IsU64 g
    → previous_range g rs ≡ some (f, l)
    → l + 1 ≡ g
    → RangeAfter g (next_range g rs)
    → Apart n (set_last f g rs) × (length (set_last f g rs) ≡ length rs)
unfolding previous_range next_range set_last
set_last-Apart n g f l [] a u p e h = absurd (cc)
set_last-Apart n g f l ((f0, l0) ∷ rs) a u p e h = ground (
  arith,
  previous-before (l0 + 2) g rs a.3,
  Apart-next (l0 + 2) g rs,
  set_last-Apart (l0 + 2) g f l rs a.3 u,
)

pub set_last-covers :
    (n g f l x : ℕ) (rs : Ranges)
    → Apart n rs
    → previous_range g rs ≡ some (f, l)
    → l + 1 ≡ g
    → covers x (set_last f g rs) ≡ (covers x rs || g == x)
unfolding previous_range covers set_last
set_last-covers n g f l x [] a p e = absurd (cc)
set_last-covers n g f l x ((f0, l0) ∷ rs) a p e =
    ground (arith, previous-before (l0 + 2) g rs a.3, set_last-covers (l0 + 2) g f l x rs a.3)

pub emplace_range-Apart :
    (n g : ℕ) (rs : Ranges)
    → Apart n rs
    → n ≤ g
    → IsU64 g
    → FarBefore g (previous_range g rs)
    → RangeAfter g (next_range g rs)
    → Apart n (emplace_range g g rs) × (length (emplace_range g g rs) ≡ length rs + 1)
unfolding previous_range next_range emplace_range range_has
emplace_range-Apart n g [] a le u p h = ground arith
emplace_range-Apart n g ((f0, l0) ∷ rs) a le u p h = ground (
  arith,
  previous-before (l0 + 2) g rs a.3,
  Apart-next (l0 + 2) g rs,
  emplace_range-Apart (l0 + 2) g rs a.3,
)

pub emplace_range-covers :
    (n g x : ℕ) (rs : Ranges)
    → Apart n rs
    → range_has g (previous_range g rs) ≡ false
    → covers x (emplace_range g g rs) ≡ (covers x rs || g == x)
unfolding previous_range covers emplace_range range_has
emplace_range-covers n g x [] a p = ground arith
emplace_range-covers n g x ((f0, l0) ∷ rs) a p =
    ground (arith, previous-before (l0 + 2) g rs a.3, emplace_range-covers (l0 + 2) g x rs a.3)

emplace-first : (n g l : ℕ) (rs : Ranges) → Apart n rs → g < n → emplace_range g l rs ≡ (g, l) ∷ rs
unfolding emplace_range
emplace-first n g l [] a h = refl
emplace-first n g l ((f0, l0) ∷ rs) a h = ground arith

pub grow_next-Added :
    (n g f l x : ℕ) (rs : Ranges)
    → Apart n rs
    → n ≤ g
    → FarBefore g (previous_range g rs)
    → next_range g rs ≡ some (f, l)
    → g + 1 ≡ f
    → let rs' = emplace_range g l (erase_range f rs) in
      Apart n rs' × (length rs' ≡ length rs) × (covers x rs' ≡ (covers x rs || g == x))
unfolding previous_range next_range emplace_range erase_range covers range_has
grow_next-Added n g f l x [] a le p q e = absurd (cc)
grow_next-Added n g f l x ((f0, l0) ∷ rs) a le p q e = ground (
  arith,
  previous-before (l0 + 2) g rs a.3,
  erase-next (l0 + 2) g f l x rs,
  next-above (l0 + 2) g rs a.3,
  emplace-first (l0 + 2) g l rs a.3,
  grow_next-Added (l0 + 2) g f l x rs a.3,
)

pub merge-Added :
    (n g f l f' l' x : ℕ) (rs : Ranges)
    → Apart n rs
    → previous_range g rs ≡ some (f, l)
    → l + 1 ≡ g
    → next_range g rs ≡ some (f', l')
    → g + 1 ≡ f'
    → let rs' = erase_range f' (set_last f l' rs) in
      Apart n rs' × (length rs' + 1 ≡ length rs) × (covers x rs' ≡ (covers x rs || g == x))
unfolding previous_range next_range set_last erase_range covers
merge-Added n g f l f' l' x [] a p e q e' = absurd (cc)
merge-Added n g f l f' l' x ((f0, l0) ∷ rs) a p e q e' = ground (
  arith,
  previous-before (l0 + 2) g rs a.3,
  erase-next (l0 + 2) g f' l' x rs,
  next-above (l0 + 2) g rs a.3,
  merge-Added (l0 + 2) g f l f' l' x rs a.3,
)
