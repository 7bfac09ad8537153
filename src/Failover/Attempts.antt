-- ===== src/Failover/Attempts.antt =====
-- The attempts that publish_with_failover makes (src/endpoint_failover.cpp), read off its events,
-- and their schedule.
use moqxr.Common.{
  ℕ, zero, suc, ◌+◌, ◌-◌, ◌^◌, ◌<◌, ◌≡◌, ◌⊎◌, inl, inr, refl, ap, ◌∙◌, subst, Bool, true, false,
  ◌||◌, some, List, [], ◌∷◌, ◌++◌, arith, ltb, ◌==◌, if◌then◌else◌, append-nil, Bool-cases,
}
use moqxr.Failover.{
  Event, attempt_event, retry_event, advance_event, exhausted_event, waited, TransportStatus,
  Ending, returns, breaks, stops, is_permanent, attempt_loop, endpoint_loop, publish_with_failover,
  all_failed, retry_delay,
}

-- The endpoint and the number of each attempt, in order.
unfoldable pub attempts : List Event → List (ℕ × ℕ)
attempts [] = []
attempts (attempt_event i a m ∷ events) = (i, a) ∷ attempts events
attempts (retry_event i a m d s ∷ events) = attempts events
attempts (advance_event i m s ∷ events) = attempts events
attempts (exhausted_event i m s ∷ events) = attempts events
attempts (waited d ∷ events) = attempts events

attempts-append : (xs ys : List Event) → attempts (xs ++ ys) ≡ attempts xs ++ attempts ys
unfolding attempts
attempts-append [] ys = refl
attempts-append (attempt_event i a m ∷ xs) ys = ap (◌∷◌ (i, a)) (attempts-append xs ys)
attempts-append (retry_event i a m d s ∷ xs) ys = attempts-append xs ys
attempts-append (advance_event i m s ∷ xs) ys = attempts-append xs ys
attempts-append (exhausted_event i m s ∷ xs) ys = attempts-append xs ys
attempts-append (waited d ∷ xs) ys = attempts-append xs ys

module _ (answer : ℕ → ℕ → TransportStatus) (count max_attempts : ℕ) where
  -- The answer ends the whole publication.
  abbrev pub is_final : ℕ → ℕ → Bool
  is_final i a = (answer i a).ok || stops (answer i a).failure_kind

  -- The answer ends the attempts at its endpoint.
  abbrev pub gives_up : ℕ → ℕ → Bool
  gives_up i a = is_permanent (answer i a).failure_kind || a == max_attempts

  -- The attempts from the one at endpoint `i` with number `a` on: a final answer is the last; an
  -- answer that gives the endpoint up is followed by the first attempt at the next endpoint, if there
  -- is one; any other answer is followed by the next attempt at the same endpoint.
  pub data Schedule : ℕ → ℕ → List (ℕ × ℕ) → Type 0 where
    final : {i a : ℕ} → is_final i a ≡ true → Schedule i a ((i, a) ∷ [])
    last :
        {i a : ℕ}
        → is_final i a ≡ false
        → gives_up i a ≡ true
        → i + 1 ≡ count
        → Schedule i a ((i, a) ∷ [])
    next :
        {i a : ℕ} {rest : List (ℕ × ℕ)}
        → is_final i a ≡ false
        → gives_up i a ≡ true
        → i + 1 < count
        → Schedule (i + 1) 1 rest
        → Schedule i a ((i, a) ∷ rest)
    again :
        {i a : ℕ} {rest : List (ℕ × ℕ)}
        → is_final i a ≡ false
        → gives_up i a ≡ false
        → Schedule i (a + 1) rest
        → Schedule i a ((i, a) ∷ rest)

pub attempts-wait :
    (wait : Bool) (rest : List Event)
    → attempts ((if wait then waited retry_delay ∷ [] else []) ++ rest) ≡ attempts rest
unfolding attempts
attempts-wait true rest = refl
attempts-wait false rest = refl

module _ (answer : ℕ → ℕ → TransportStatus) (wait : Bool) (count max_attempts : ℕ) where
  -- What the attempts at one endpoint leave for the next.
  abbrev Continues : ℕ → ℕ → List (ℕ × ℕ) → Ending → Type 0
  Continues i a made (returns s) = Schedule answer count max_attempts i a made
  Continues i a made (breaks s) =
      (i + 1 ≡ count → Schedule answer count max_attempts i a made)
      × ((rest : List (ℕ × ℕ))
          → i + 1 < count
          → Schedule answer count max_attempts (i + 1) 1 rest
          → Schedule answer count max_attempts i a (made ++ rest))

  continue_again :
      (i a : ℕ) (made : List (ℕ × ℕ)) (e : Ending)
      → is_final answer count max_attempts i a ≡ false
      → gives_up answer count max_attempts i a ≡ false
      → Continues i (a + 1) made e
      → Continues i a ((i, a) ∷ made) e
  continue_again i a made (returns s) f g c = again f g c
  continue_again i a made (breaks s) f g c =
      ((λ e. again f g (c.0 e)), (λ rest less t. again f g (c.1 rest less t)))

  module _ (i rounds a : ℕ) (s : TransportStatus) where
    abbrev this_round : List Event × Ending
    this_round = attempt_loop answer wait i max_attempts (suc rounds) a s

    abbrev next_round : List Event × Ending
    next_round = attempt_loop answer wait i max_attempts rounds (a + 1) (answer i a)

    pub round-final :
        is_final answer count max_attempts i a ≡ true
        → this_round ≡ (attempt_event i a max_attempts ∷ [], returns (answer i a))
    unfolding attempt_loop
    round-final f = ground arith

    pub round-up :
        is_final answer count max_attempts i a ≡ false
        → gives_up answer count max_attempts i a ≡ true
        → this_round ≡ (attempt_event i a max_attempts ∷ [], breaks (answer i a))
    unfolding attempt_loop
    round-up f g = ground arith

    pub round-again :
        is_final answer count max_attempts i a ≡ false
        → gives_up answer count max_attempts i a ≡ false
        → this_round ≡ (
          attempt_event i a max_attempts
              ∷ retry_event i (a + 1) max_attempts retry_delay (answer i a)
              ∷ ((if wait then waited retry_delay ∷ [] else []) ++ next_round.0),
          next_round.1,
        )
    unfolding attempt_loop
    round-again f g = ground arith

  attempt_loop-Continues :
      (i rounds a : ℕ) (s : TransportStatus)
      → rounds + a ≡ max_attempts + 1
      → 0 < rounds
      → Continues i a
          (attempts (attempt_loop answer wait i max_attempts rounds a s).0)
          (attempt_loop answer wait i max_attempts rounds a s).1
  unfolding attempts
  attempt_loop-Continues i zero a s e pos = absurd (omega arith)
  attempt_loop-Continues i (suc rounds) a s e pos =
      elim (Bool-cases (is_final answer count max_attempts i a)) [
        | inl f ↦ rw (round-final i rounds a s f) (final f)
        | inr f ↦ elim (Bool-cases (gives_up answer count max_attempts i a)) [
          | inl g ↦
              rw (round-up i rounds a s f g) ((λ e. last f g e), (λ rest less t. next f g less t))
          | inr g ↦ rw (round-again i rounds a s f g) (
              rw (attempts-wait wait) (
                continue_again i a _ _ f g (
                  attempt_loop-Continues i rounds (a + 1) (answer i a) (omega arith)
                    (ground arith))))
        ]
      ]

  pub Ending-cases :
      (e : Ending)
      → ((s : TransportStatus) × (e ≡ returns s)) ⊎ ((s : TransportStatus) × (e ≡ breaks s))
  Ending-cases (returns s) = inl (s, refl)
  Ending-cases (breaks s) = inr (s, refl)

  abbrev advance : ℕ → TransportStatus → List Event
  advance i s = if ltb (i + 1) count then advance_event i max_attempts s ∷ [] else []

  attempts-advance :
      (i : ℕ) (s : TransportStatus) (rest : List Event)
      → attempts (advance i s ++ rest) ≡ attempts rest
  unfolding attempts
  attempts-advance i s rest = ground arith

  -- The events behind the attempts at one endpoint.
  pub attempts-behind :
      (events : List Event) (i : ℕ) (s : TransportStatus) (rest : List Event)
      → attempts (events ++ (advance i s ++ rest)) ≡ attempts events ++ attempts rest
  attempts-behind events i s rest =
      attempts-append events (advance i s ++ rest)
      ∙ ap (◌++◌ (attempts events)) (attempts-advance i s rest)

  -- The events of the attempts at an endpoint, and of all that follows them.
  abbrev made_at : ℕ → TransportStatus → List (ℕ × ℕ)
  made_at i s = attempts (attempt_loop answer wait i max_attempts max_attempts 1 s).0

  abbrev made_from : ℕ → ℕ → TransportStatus → List (ℕ × ℕ)
  made_from left i s = attempts (endpoint_loop answer wait left i count max_attempts s).0

  endpoint-Schedule :
      (left i : ℕ) (s : TransportStatus)
      → 0 < max_attempts
      → ((t : TransportStatus)
          → Continues i 1 (made_at i s) (breaks t)
          → Schedule answer count max_attempts i 1 (made_at i s ++ made_from left (i + 1) t))
      → Schedule answer count max_attempts i 1 (made_from (suc left) i s)
  unfolding endpoint_loop
  endpoint-Schedule left i s pos behind =
      let r = attempt_loop answer wait i max_attempts max_attempts 1 s in
      let c = attempt_loop-Continues i max_attempts 1 s refl pos in
      elim (Ending-cases r.1) [
        | inl (t, k) ↦ rw (k, endpoint_loop) (subst (Continues i 1 (made_at i s)) k c)
        | inr (t, k) ↦
            rw (k, endpoint_loop)
              (rw (attempts-behind r.0 i t) (behind t (subst (Continues i 1 (made_at i s)) k c)))
      ]

  endpoint_loop-Schedule :
      (left i : ℕ) (s : TransportStatus)
      → left + i + 1 ≡ count
      → 0 < max_attempts
      → Schedule answer count max_attempts i 1 (made_from (suc left) i s)
  endpoint_loop-Schedule zero i s e pos = endpoint-Schedule zero i s pos nothing
    where
      nothing :
          (t : TransportStatus)
          → Continues i 1 (made_at i s) (breaks t)
          → Schedule answer count max_attempts i 1 (made_at i s ++ made_from zero (i + 1) t)
      nothing t c = unfold attempts endpoint_loop in rw append-nil (c.0 (omega arith))
  endpoint_loop-Schedule (suc left) i s e pos = endpoint-Schedule (suc left) i s pos (λ t c.
      c.1 (made_from (suc left) (i + 1) t) (omega arith)
        (endpoint_loop-Schedule left (i + 1) t (omega arith) pos))

pub publish_with_failover-loop :
    (answer : ℕ → ℕ → TransportStatus) (wait : Bool) (n retry_count : ℕ)
    → retry_count < 2 ^ 64 - 1
    → publish_with_failover (suc n) retry_count (some answer) wait
      ≡ endpoint_loop answer wait (suc n) 0 (suc n) (retry_count + 1) all_failed
publish_with_failover-loop answer wait n retry_count small =
    unfold publish_with_failover in ground arith

-- With at least one endpoint, a callback and a retry count below the maximum, the attempts that
-- publishing makes follow the schedule from the first attempt at the first endpoint on: a success, a
-- cancellation and a fatal failure are the last; a permanent failure of the endpoint and the last
-- retry are followed by the first attempt at the next endpoint, or by nothing behind the last
-- endpoint; any other failure is followed by the next attempt at the same endpoint.
pub publish_with_failover-Schedule :
    (answer : ℕ → ℕ → TransportStatus) (wait : Bool) (endpoints retry_count : ℕ)
    → 0 < endpoints
    → retry_count < 2 ^ 64 - 1
    → Schedule answer endpoints
        (retry_count + 1)
        0
        1
        (attempts (publish_with_failover endpoints retry_count (some answer) wait).0)
publish_with_failover-Schedule answer wait zero retry_count pos small = absurd (omega arith)
publish_with_failover-Schedule answer wait (suc n) retry_count pos small =
    rw (publish_with_failover-loop answer wait n retry_count small) (
      endpoint_loop-Schedule answer wait (suc n) (retry_count + 1) n 0 all_failed (omega arith)
        (omega arith))
