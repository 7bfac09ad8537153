-- ===== src/Failover/Outcomes.antt =====
-- publish_with_failover (src/endpoint_failover.cpp): the number of its attempts and the status
-- that it returns.
use moqxr.Common.{
  ℕ, zero, suc, ◌+◌, ◌-◌, ◌*◌, ◌^◌, ◌≤◌, ◌<◌, ◌≡◌, inl, inr, refl, sym, subst, Bool, false, ◌||◌,
  some, List, [], ◌∷◌, ◌++◌, arith, ltb, if◌then◌else◌, length, Bool-cases,
}
use moqxr.Failover.{
  Event, advance_event, TransportStatus, Ending, returns, breaks, attempt_loop, endpoint_loop,
  publish_with_failover, all_failed,
}
use moqxr.Failover.Attempts.{
  attempts, attempts-wait, attempts-behind, Ending-cases, round-final, round-up, round-again,
  is_final, gives_up, Schedule, final, last, next, again, publish_with_failover-loop,
  publish_with_failover-Schedule,
}

le-mul : (i n m : ℕ) → i < n → i * m + m ≤ n * m
le-mul i n m h = grind arith

Schedule-length :
    (answer : ℕ → ℕ → TransportStatus) (count m : ℕ) {i a : ℕ} {xs : List (ℕ × ℕ)}
    → Schedule answer count m i a xs
    → i < count
    → 1 ≤ a
    → a ≤ m
    → length xs + i * m + a ≤ count * m + 1
Schedule-length answer count m {i} (final f) h one k = ground (arith, le-mul i count m h)
Schedule-length answer count m {i} (last f g e) h one k = ground (arith, le-mul i count m h)
Schedule-length answer count m {i} (next f g less s) h one k =
    ground
      (arith, le-mul i count m h, Schedule-length answer count m s less (omega arith) (omega arith))
Schedule-length answer count m {i} {a} (again f g s) h one k =
    ground (arith, Schedule-length answer count m s h (omega arith) (ground arith))

-- The answer to the last attempt.
pub last_answer : (ℕ → ℕ → TransportStatus) → List (ℕ × ℕ) → TransportStatus → TransportStatus
last_answer answer [] s = s
last_answer answer ((i, a) ∷ rest) s = last_answer answer rest (answer i a)

pub any_ok : (ℕ → ℕ → TransportStatus) → List (ℕ × ℕ) → Bool
any_ok answer [] = false
any_ok answer ((i, a) ∷ rest) = (answer i a).ok || any_ok answer rest

Schedule-any_ok :
    (answer : ℕ → ℕ → TransportStatus) (count m : ℕ) {i a : ℕ} {xs : List (ℕ × ℕ)}
    (s : TransportStatus)
    → Schedule answer count m i a xs
    → (last_answer answer xs s).ok ≡ any_ok answer xs
unfolding last_answer any_ok
Schedule-any_ok answer count m {i} {a} s (final f) = ground arith
Schedule-any_ok answer count m {i} {a} s (last f g e) = ground arith
Schedule-any_ok answer count m {i} {a} s (next f g less t) =
    ground (arith, Schedule-any_ok answer count m (answer i a) t)
Schedule-any_ok answer count m {i} {a} s (again f g t) =
    ground (arith, Schedule-any_ok answer count m (answer i a) t)

last_answer-append :
    (answer : ℕ → ℕ → TransportStatus) (xs ys : List (ℕ × ℕ)) (s : TransportStatus)
    → last_answer answer (xs ++ ys) s ≡ last_answer answer ys (last_answer answer xs s)
unfolding last_answer
last_answer-append answer [] ys s = refl
last_answer-append answer ((i, a) ∷ xs) ys s = last_answer-append answer xs ys (answer i a)

module _ (answer : ℕ → ℕ → TransportStatus) (wait : Bool) (count m : ℕ) where
  abbrev status_of : Ending → TransportStatus
  status_of (returns s) = s
  status_of (breaks s) = s

  abbrev Last : TransportStatus → List Event × Ending → Type 0
  Last s r = status_of r.1 ≡ last_answer answer (attempts r.0) s

  attempt_loop-Last :
      (i rounds a : ℕ) (s : TransportStatus) → Last s (attempt_loop answer wait i m rounds a s)
  unfolding attempts last_answer
  attempt_loop-Last i zero a s = unfold attempt_loop in refl
  attempt_loop-Last i (suc rounds) a s = elim (Bool-cases (is_final answer count m i a)) [
    | inl f ↦ rw (round-final answer wait count m i rounds a s f) refl
    | inr f ↦ elim (Bool-cases (gives_up answer count m i a)) [
      | inl g ↦ rw (round-up answer wait count m i rounds a s f g) refl
      | inr g ↦
          rw (round-again answer wait count m i rounds a s f g)
            (rw (attempts-wait wait) (attempt_loop-Last i rounds (a + 1) (answer i a)))
    ]
  ]

  abbrev endpoint_result : ℕ → ℕ → TransportStatus → TransportStatus
  endpoint_result left i s = (endpoint_loop answer wait left i count m s).1

  abbrev made_from : ℕ → ℕ → TransportStatus → List (ℕ × ℕ)
  made_from left i s = attempts (endpoint_loop answer wait left i count m s).0

  module _ (left i : ℕ) (s t : TransportStatus) where
    abbrev tried : List Event × Ending
    tried = attempt_loop answer wait i m m 1 s

    endpoint-returns :
        tried.1 ≡ returns t → endpoint_loop answer wait (suc left) i count m s ≡ (tried.0, t)
    unfolding endpoint_loop
    endpoint-returns k = ground arith

    endpoint-breaks :
        tried.1 ≡ breaks t
        → endpoint_loop answer wait (suc left) i count m s ≡ (
          tried.0
              ++ ((if ltb (i + 1) count then advance_event i m t ∷ [] else [])
                  ++ (endpoint_loop answer wait left (i + 1) count m t).0),
          endpoint_result left (i + 1) t,
        )
    unfolding endpoint_loop
    endpoint-breaks k = ground arith

  endpoint_loop-last :
      (left i : ℕ) (s : TransportStatus)
      → endpoint_result left i s ≡ last_answer answer (made_from left i s) s
  endpoint_loop-last zero i s = unfold endpoint_loop attempts last_answer in refl
  endpoint_loop-last (suc left) i s =
      let r = attempt_loop answer wait i m m 1 s in
      let c = attempt_loop-Last i m 1 s in
      elim (Ending-cases answer wait count m r.1) [
        | inl (t, k) ↦
            subst (λ x. x.1 ≡ last_answer answer (attempts x.0) s)
              (sym (endpoint-returns left i s t k))
              (subst (λ e. status_of e ≡ last_answer answer (attempts r.0) s) k c)
        | inr (t, k) ↦
            subst (λ x. x.1 ≡ last_answer answer (attempts x.0) s)
              (sym (endpoint-breaks left i s t k))
              (rw (attempts-behind answer wait count m r.0 i t, last_answer-append)
                (subst
                  (λ u.
                    endpoint_result left (i + 1) t
                    ≡ last_answer answer (made_from left (i + 1) t) u)
                  (subst (λ e. status_of e ≡ last_answer answer (attempts r.0) s) k c)
                  (endpoint_loop-last left (i + 1) t)))
      ]

-- Publishing to several endpoints makes at most as many attempts as there are endpoints, times the
-- attempts that each is allowed, and at least one.
pub publish_with_failover-length :
    (answer : ℕ → ℕ → TransportStatus) (wait : Bool) (endpoints retry_count : ℕ)
    → 0 < endpoints
    → retry_count < 2 ^ 64 - 1
    → length (attempts (publish_with_failover endpoints retry_count (some answer) wait).0)
      ≤ endpoints * (retry_count + 1)
publish_with_failover-length answer wait endpoints retry_count pos small = omega (
  arith,
  Schedule-length answer endpoints (retry_count + 1)
      (publish_with_failover-Schedule answer wait endpoints retry_count pos small) pos (omega arith)
      (omega arith),
)

publish_with_failover-last :
    (answer : ℕ → ℕ → TransportStatus) (wait : Bool) (endpoints retry_count : ℕ)
    → 0 < endpoints
    → retry_count < 2 ^ 64 - 1
    → (publish_with_failover endpoints retry_count (some answer) wait).1
      ≡ last_answer answer
          (attempts (publish_with_failover endpoints retry_count (some answer) wait).0)
          all_failed
publish_with_failover-last answer wait zero retry_count pos small = absurd (omega arith)
publish_with_failover-last answer wait (suc n) retry_count pos small =
    rw (publish_with_failover-loop answer wait n retry_count small)
      (endpoint_loop-last answer wait (suc n) (retry_count + 1) (suc n) 0 all_failed)

-- The status that publishing returns is the callback's answer to the last attempt, and it is a
-- success exactly when some attempt was answered by a success.
pub publish_with_failover-outcome :
    (answer : ℕ → ℕ → TransportStatus) (wait : Bool) (endpoints retry_count : ℕ)
    → 0 < endpoints
    → retry_count < 2 ^ 64 - 1
    → let (events, status) = publish_with_failover endpoints retry_count (some answer) wait in
      (status ≡ last_answer answer (attempts events) all_failed)
      × (status.ok ≡ any_ok answer (attempts events))
publish_with_failover-outcome answer wait endpoints retry_count pos small =
    let e = publish_with_failover-last answer wait endpoints retry_count pos small in
    (
      e,
      rw e (
          Schedule-any_ok answer endpoints (retry_count + 1) all_failed
            (publish_with_failover-Schedule answer wait endpoints retry_count pos small)),
    )
