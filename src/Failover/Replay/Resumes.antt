-- ===== src/Failover/Replay/Resumes.antt =====
-- ReplayableLiveObjectSource (src/endpoint_failover.cpp): what a new attempt replays.
use moqxr.Common.{
  ℕ, suc, ◌+◌, ◌-◌, ◌^◌, ◌≤◌, ◌<◌, ◌≡◌, ◌⊎◌, inl, inr, refl, sym, ap, Bool, true, false, ◌||◌, some,
  List, [], ◌∷◌, ◌++◌, arith, if◌then◌else◌, length, drop, append-nil, Bool-cases,
}
use Prim.Native.String.{String}
use moqxr.Common.{text_key}
use moqxr.Failover.Replay.{
  LiveObject, ReplayableLiveObjectSource, starts_video, replay_from, catalog_of, begin_attempt,
  pop_excess, retain, is_catalog, take_source, take_replay, next_object,
}

-- The last `n` of a list.
pub newest : ℕ → List LiveObject → List LiveObject
newest n xs = drop (length xs - n) xs

newest-cons :
    (n : ℕ) (x : LiveObject) (xs : List LiveObject)
    → n ≤ length xs
    → newest n (x ∷ xs) ≡ newest n xs
unfolding newest
newest-cons n x xs h = ap (λ k. drop k (x ∷ xs)) step
  where
    step : length (x ∷ xs) - n ≡ suc (length xs - n)
    step = omega (arith, h)

newest-short : (n : ℕ) (xs : List LiveObject) → length xs ≤ n → newest n xs ≡ xs
unfolding newest
newest-short n xs h = ap (λ k. drop k xs) step
  where
    step : length xs - n ≡ 0
    step = omega (arith, h)

pop_excess-newest : (n : ℕ) (xs : List LiveObject) → pop_excess n xs ≡ newest n xs
unfolding pop_excess
pop_excess-newest n [] = sym (newest-short n [] (omega arith))
pop_excess-newest n (x ∷ xs) =
    ground (arith, pop_excess-newest n xs, newest-cons n x xs, newest-short n (x ∷ xs))

-- What a source answers to an attempt whose replay is used up goes out as it is; a catalog becomes the
-- retained catalog, and any other object is retained, together with the newest before it, as far as
-- the limit allows.
next_object-newest :
    (s : ReplayableLiveObjectSource) (object : LiveObject)
    → s.replay ≡ []
    → let (given, s') = next_object s (some object) in
      (given ≡ some object)
      × (s'.retained_catalog ≡ (if is_catalog object then some object else s.retained_catalog))
      × (s'.retained ≡ (
          if is_catalog object
          then s.retained
          else newest s.max_buffered_objects (s.retained ++ object ∷ [])))
unfolding next_object take_source take_replay retain
next_object-newest s object used =
    ground (arith, pop_excess-newest s.max_buffered_objects (s.retained ++ object ∷ []))

-- Whether a video track starts over among the objects.
pub has_start : List (String × Bool) → List LiveObject → Bool
has_start tracks [] = false
has_start tracks (x ∷ xs) = starts_video tracks x || has_start tracks xs

replay_from-none :
    (tracks : List (String × Bool)) (xs begin : List LiveObject)
    → has_start tracks xs ≡ false
    → replay_from tracks begin xs ≡ begin
unfolding replay_from has_start
replay_from-none tracks [] begin none_starts = refl
replay_from-none tracks (x ∷ xs) begin none_starts =
    ground (arith, replay_from-none tracks xs begin)

-- The objects from the last start of a video track on.
abbrev pub FromLastStart : List (String × Bool) → List LiveObject → List LiveObject → Type 0
FromLastStart tracks xs replayed =
    (front : List LiveObject) × (y : LiveObject) × (ys : List LiveObject) × (xs ≡ front ++ y ∷ ys)
    × (starts_video tracks y ≡ true)
    × (has_start tracks ys ≡ false)
    × (replayed ≡ y ∷ ys)

replay_from-start :
    (tracks : List (String × Bool)) (xs begin : List LiveObject)
    → has_start tracks xs ≡ true
    → FromLastStart tracks xs (replay_from tracks begin xs)
unfolding has_start replay_from
replay_from-start tracks [] begin starts = cc
replay_from-start tracks (x ∷ xs) begin starts = elim (Bool-cases (has_start tracks xs)) [
  | inl later ↦
      let begin' = if starts_video tracks x then x ∷ xs else begin in
      let (front, y, ys, e, s, n, r) = replay_from-start tracks xs begin' later in
      (x ∷ front, y, ys, ap (◌∷◌ x) e, s, n, r)
  | inr here ↦
      let s : starts_video tracks x ≡ true = ground (arith, starts, here) in
      ([], x, xs, refl, s, here, rw (s, if◌then◌else◌) (replay_from-none tracks xs (x ∷ xs) here))
]

-- A later attempt begins with the retained catalog, followed by the retained objects from the newest
-- start of a video track on where there is one, and by all of them where there is none; nothing is
-- retained any more.
pub begin_attempt-FromLastStart :
    (s : ReplayableLiveObjectSource)
    → 0 < s.attempt_count
    → s.attempt_count + 1 < 2 ^ 64
    → (replayed : List LiveObject) × ((begin_attempt s).replay
        ≡ catalog_of s.retained_catalog ++ replayed)
      × ((begin_attempt s).retained ≡ [])
      × (((has_start s.tracks s.retained ≡ false) × (replayed ≡ s.retained))
          ⊎ FromLastStart s.tracks s.retained replayed)
unfolding begin_attempt
begin_attempt-FromLastStart s later small = (
  replay_from s.tracks s.retained s.retained,
  ground arith,
  ground arith,
  elim (Bool-cases (has_start s.tracks s.retained)) [
    | inl starts ↦ inr (replay_from-start s.tracks s.retained s.retained starts)
    | inr none_starts ↦
        inl (none_starts, replay_from-none s.tracks s.retained s.retained none_starts)
  ],
)

-- When an attempt after the first takes no object and another is begun, nothing of what was retained is
-- replayed but the catalog.
pub begin_attempt-lost :
    (s : ReplayableLiveObjectSource)
    → 0 < s.attempt_count
    → s.attempt_count + 2 < 2 ^ 64
    → ((begin_attempt (begin_attempt s)).replay ≡ catalog_of s.retained_catalog)
      × ((begin_attempt (begin_attempt s)).retained ≡ [])
unfolding begin_attempt replay_from
begin_attempt-lost s later small = ground (arith, append-nil (catalog_of s.retained_catalog))
