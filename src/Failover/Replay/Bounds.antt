-- ===== src/Failover/Replay/Bounds.antt =====
-- ReplayableLiveObjectSource (src/endpoint_failover.cpp): the number of objects that it holds.
use moqxr.Common.{
  ℕ, ◌+◌, ◌≤◌, ◌≡◌, ◌⊎◌, inl, inr, refl, ap, ◌∙◌, Bool, Option, none, some, List, [], ◌∷◌, ◌++◌,
  arith, ◌==◌, if◌then◌else◌, length, length-append, Bool-cases,
}
use Prim.Native.Nat.{max}
use Prim.Native.String.{String}
use moqxr.Common.{text_key}
use moqxr.Common.Bytes.{add64}
use moqxr.Failover.Replay.{
  LiveObject, ReplayableLiveObjectSource, new, starts_video, replay_from, catalog_of, begin_attempt,
  pop_excess, retain, is_catalog, take_source, take_replay, next_object, buffered_objects,
}

pop_excess-length : (n : ℕ) (xs : List LiveObject) → length (pop_excess n xs) ≤ n
unfolding pop_excess
pop_excess-length n [] = omega arith
pop_excess-length n (x ∷ xs) = ground (arith, pop_excess-length n xs)

pop_excess-shorter : (n : ℕ) (xs : List LiveObject) → length (pop_excess n xs) ≤ length xs
unfolding pop_excess
pop_excess-shorter n [] = omega arith
pop_excess-shorter n (x ∷ xs) = ground (arith, pop_excess-shorter n xs)

replay_from-length :
    (tracks : List (String × Bool)) (n : ℕ) (xs begin : List LiveObject)
    → length begin ≤ n
    → length xs ≤ n
    → length (replay_from tracks begin xs) ≤ n
unfolding replay_from
replay_from-length tracks n [] begin h k = h
replay_from-length tracks n (x ∷ xs) begin h k =
    replay_from-length tracks n xs (if starts_video tracks x then x ∷ xs else begin) (ground arith)
      (omega (arith, k))

-- The invariant: what is retained is within the limit, and with the replay that is not used up there
-- is at most the catalog more.
pub record IsBounded (s : ReplayableLiveObjectSource) : Type 0 where
  pub retained : length s.retained ≤ s.max_buffered_objects
  pub replay : s.replay ≡ [] ⊎ length s.retained + length s.replay ≤ s.max_buffered_objects + 1

catalog-length : (catalog : Option LiveObject) → length (catalog_of catalog) ≤ 1
catalog-length none = omega arith
catalog-length (some x) = omega arith

begin_attempt-IsBounded :
    (s : ReplayableLiveObjectSource) → IsBounded s → IsBounded (begin_attempt s)
unfolding begin_attempt
begin_attempt-IsBounded s b = elim (Bool-cases (add64 s.attempt_count 1 == 1)) [
  | inl first ↦ rw (first, if◌then◌else◌) (record { retained = b.retained; replay = inl refl })
  | inr later ↦
      rw (later, if◌then◌else◌)
        (record {
          retained = omega arith;
          replay = inr (
              ground (
                arith,
                length-append (catalog_of s.retained_catalog)
                    (replay_from s.tracks s.retained s.retained),
                replay_from-length s.tracks s.max_buffered_objects s.retained s.retained b.retained
                    b.retained,
                catalog-length s.retained_catalog,
              ));
        })
]

take_source-IsBounded :
    (s : ReplayableLiveObjectSource) (answer : Option LiveObject)
    → s.replay ≡ []
    → IsBounded s
    → IsBounded (take_source s answer).1
unfolding take_source retain
take_source-IsBounded s none e b = b
take_source-IsBounded s (some x) e b = elim (Bool-cases (is_catalog x)) [
  | inl c ↦ rw (c, if◌then◌else◌) (record { retained = b.retained; replay = inl e })
  | inr c ↦
      rw (c, if◌then◌else◌)
        (record {
          retained = pop_excess-length s.max_buffered_objects (s.retained ++ x ∷ []);
          replay = inl e;
        })
]

take_replay-IsBounded :
    (s : ReplayableLiveObjectSource) (replay : List LiveObject) (answer : Option LiveObject)
    → s.replay ≡ replay
    → IsBounded s
    → IsBounded (take_replay s replay answer).1
unfolding take_replay retain
take_replay-IsBounded s [] answer e b = take_source-IsBounded s answer e b
take_replay-IsBounded s (x ∷ replay) answer e b =
    let size : length s.retained + length replay ≤ s.max_buffered_objects =
      ground (arith, b.replay, ap length e) in
    elim (Bool-cases (is_catalog x)) [
      | inl c ↦
          rw (c, if◌then◌else◌)
            (record { retained = b.retained; replay = inr (omega (arith, size)) })
      | inr c ↦
          rw (c, if◌then◌else◌)
            (record {
              retained = pop_excess-length s.max_buffered_objects (s.retained ++ x ∷ []);
              replay = inr (
                  omega (
                    arith,
                    size,
                    length-append s.retained (x ∷ []),
                    pop_excess-shorter s.max_buffered_objects (s.retained ++ x ∷ []),
                  ));
            })
    ]

next_object-IsBounded :
    (s : ReplayableLiveObjectSource) (answer : Option LiveObject)
    → IsBounded s
    → IsBounded (next_object s answer).1
unfolding next_object
next_object-IsBounded s answer b = take_replay-IsBounded s s.replay answer refl b

-- The calls on a source: a new attempt, and the next object, with what the source behind it answers.
pub data Call : Type 0 where
  begins : Call
  takes : Option LiveObject → Call

pub run : ReplayableLiveObjectSource → List Call → ReplayableLiveObjectSource
run s [] = s
run s (begins ∷ cs) = run (begin_attempt s) cs
run s (takes answer ∷ cs) = run (next_object s answer).1 cs

run-IsBounded :
    (s : ReplayableLiveObjectSource) (cs : List Call) → IsBounded s → IsBounded (run s cs)
unfolding run
run-IsBounded s [] b = b
run-IsBounded s (begins ∷ cs) b = run-IsBounded (begin_attempt s) cs (begin_attempt-IsBounded s b)
run-IsBounded s (takes answer ∷ cs) b =
    run-IsBounded (next_object s answer).1 cs (next_object-IsBounded s answer b)

limit-begin :
    (s : ReplayableLiveObjectSource)
    → (begin_attempt s).max_buffered_objects ≡ s.max_buffered_objects
unfolding begin_attempt
limit-begin s = ground arith

limit-next :
    (s : ReplayableLiveObjectSource) (replay : List LiveObject) (answer : Option LiveObject)
    → (take_replay s replay answer).1.max_buffered_objects ≡ s.max_buffered_objects
unfolding take_replay take_source retain
limit-next s [] none = refl
limit-next s [] (some x) = ground arith
limit-next s (x ∷ replay) answer = ground arith

limit-run :
    (s : ReplayableLiveObjectSource) (cs : List Call)
    → (run s cs).max_buffered_objects ≡ s.max_buffered_objects
unfolding run next_object
limit-run s [] = refl
limit-run s (begins ∷ cs) = limit-run (begin_attempt s) cs ∙ limit-begin s
limit-run s (takes answer ∷ cs) =
    limit-run (next_object s answer).1 cs ∙ limit-next s s.replay answer

new-IsBounded : (tracks : List (String × Bool)) (limit : ℕ) → IsBounded (new tracks limit)
unfolding new
new-IsBounded tracks limit = record { retained = ground arith; replay = inl refl }

limit-new :
    (tracks : List (String × Bool)) (limit : ℕ)
    → (new tracks limit).max_buffered_objects ≡ max limit 1
unfolding new
limit-new tracks limit = ground arith

bounded-buffered :
    (s : ReplayableLiveObjectSource) → IsBounded s → buffered_objects s ≤ s.max_buffered_objects + 1
unfolding buffered_objects
bounded-buffered s b = ground (arith, b.retained, b.replay, λ (p : s.replay ≡ []). ap length p)

-- However many attempts are begun and objects are taken, a new source with a limit holds at most one
-- object more than the limit, which is the catalog; a limit of 0 counts as 1.
run-buffered_objects :
    (tracks : List (String × Bool)) (limit : ℕ) (cs : List Call)
    → buffered_objects (run (new tracks limit) cs) ≤ max limit 1 + 1
run-buffered_objects tracks limit cs =
    let s = run (new tracks limit) cs in
    omega (
      arith,
      bounded-buffered s (run-IsBounded (new tracks limit) cs (new-IsBounded tracks limit)),
      limit-run (new tracks limit) cs,
      limit-new tracks limit,
    )
