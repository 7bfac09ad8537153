-- ===== src/Session/Generations/Origins.antt =====
-- The origins of cycles that GenerationAvailability (src/transport/moqt_session.cpp) hands out.
use moqxr.Common.{
  ℕ, ◌+◌, ◌*◌, ◌%◌, ◌≤◌, ◌≡◌, refl, true, false, not, ◌&&◌, ◌||◌, Option, none, some, List, [], ◌∷◌,
  arith, ◌∙◌, ◌==◌, max, Bool-cases, Option-cases, inl, inr, nat_eq, nat_beq_iff,
}
use moqxr.Common.Assoc.{lookup, lookup-insert}
use moqxr.Common.Assoc
use moqxr.Common.Bytes.{u64_mod}
use moqxr.Session.Generations.{
  GenerationAvailability, generation_origin, remember_origin, keep_origins, last_of,
  retain_generations,
}

lookup-keep_origins :
    (oldest newest cycle : ℕ) (origins : List (ℕ × ℕ))
    → oldest ≤ cycle
    → cycle ≤ newest
    → lookup cycle (keep_origins oldest newest origins) ≡ lookup cycle origins
unfolding keep_origins lookup
lookup-keep_origins oldest newest cycle [] old new = refl
lookup-keep_origins oldest newest cycle ((c, origin) ∷ origins) old new =
    ground (arith, nat_beq_iff c cycle, lookup-keep_origins oldest newest cycle origins old new)

module _ (cycle later : ℕ) where
  -- The three ways to an origin.
  at_start :
      (a : GenerationAvailability)
      → (cycle == 0) ≡ true
      → generation_origin cycle later a ≡ (a.first_generation_at, a)
  unfolding generation_origin
  at_start a start = rw start

  computed :
      (a : GenerationAvailability)
      → (cycle == 0) ≡ false
      → (a.paced && not (a.cycle_duration_us == 0)) ≡ true
      → generation_origin cycle later a
        ≡ (a.first_generation_at + (cycle * a.cycle_duration_us % u64_mod) * 1000, a)
  unfolding generation_origin
  computed a start paced = rw (start, paced)

  remembered :
      (a : GenerationAvailability)
      → (cycle == 0) ≡ false
      → (a.paced && not (a.cycle_duration_us == 0)) ≡ false
      → generation_origin cycle later a
        ≡ remember_origin cycle later a (lookup cycle a.generation_origins)
  unfolding generation_origin
  remembered a start paced = rw (start, paced)

asked_again :
    (cycle now later : ℕ) (a : GenerationAvailability)
    → let (origin, a') = generation_origin cycle now a in
      ((generation_origin cycle later a').0 ≡ origin)
      × (a'.oldest_retained_cycle ≡ a.oldest_retained_cycle)
asked_again cycle now later a = elim (Bool-cases (cycle == 0)) [
  | inl start ↦ rw (at_start cycle now a start, at_start cycle later a start) (refl, refl)
  | inr start ↦ elim (Bool-cases (a.paced && not (a.cycle_duration_us == 0))) [
    | inl paced ↦
        rw (computed cycle now a start paced, computed cycle later a start paced) (refl, refl)
    | inr unpaced ↦ elim (Option-cases (lookup cycle a.generation_origins)) [
      | inl new ↦
          let a' : GenerationAvailability = record a {
            generation_origins = Assoc.insert cycle now a.generation_origins;
          } in
          let found : lookup cycle a'.generation_origins ≡ some now =
            ground (
              arith,
              nat_beq_iff cycle cycle,
              lookup-insert cycle cycle now a.generation_origins,
            ) in
          let again = remembered cycle later a' start unpaced in
          rw (remembered cycle now a start unpaced, new) (rw (again, found) refl, refl)
      | inr (origin, held) ↦
          rw
            (
              remembered cycle now a start unpaced,
              held,
              remembered cycle later a start unpaced,
              held,
            )
            (refl, refl)
    ]
  ]
]

-- The origin is read from four parts of the state.
same_origin :
    (cycle later : ℕ) (a b : GenerationAvailability)
    → a.first_generation_at ≡ b.first_generation_at
    → a.paced ≡ b.paced
    → a.cycle_duration_us ≡ b.cycle_duration_us
    → lookup cycle a.generation_origins ≡ lookup cycle b.generation_origins
    → (generation_origin cycle later a).0 ≡ (generation_origin cycle later b).0
same_origin cycle later a b first paced duration found = elim (Bool-cases (cycle == 0)) [
  | inl start ↦ rw (at_start cycle later a start, at_start cycle later b start) first
  | inr start ↦ elim (Bool-cases (b.paced && not (b.cycle_duration_us == 0))) [
    | inl runs ↦
        let runs' : (a.paced && not (a.cycle_duration_us == 0)) ≡ true =
          rw (paced, duration) runs in
        rw (computed cycle later a start runs', computed cycle later b start runs, first, duration)
          refl
    | inr waits ↦
        let waits' : (a.paced && not (a.cycle_duration_us == 0)) ≡ false =
          rw (paced, duration) waits in
        rw (remembered cycle later a start waits', remembered cycle later b start waits, found)
          (remembered_eq (lookup cycle b.generation_origins))
  ]
]
  where
    remembered_eq :
        (o : Option ℕ) → (remember_origin cycle later a o).0 ≡ (remember_origin cycle later b o).0
    remembered_eq none = refl
    remembered_eq (some origin) = refl

retained :
    (cycle later first : ℕ) (cycles : List ℕ) (a : GenerationAvailability)
    → a.oldest_retained_cycle ≤ cycle
    → first ≤ cycle
    → cycle ≤ last_of first cycles
    → (generation_origin cycle later (retain_generations (first ∷ cycles) a)).0
      ≡ (generation_origin cycle later a).0
unfolding retain_generations
retained cycle later first cycles a old from to = elim (Bool-cases (not a.enabled || a.paced)) [
  | inl kept ↦ rw kept
  | inr dropped ↦
      let oldest = max a.oldest_retained_cycle first in
      let newest = last_of first cycles in
      let a' : GenerationAvailability = record a {
        oldest_retained_cycle = oldest;
        generation_origins = keep_origins oldest newest a.generation_origins;
      } in
      rw dropped (
        same_origin cycle later a' a refl refl refl
          (lookup-keep_origins oldest newest cycle a.generation_origins (omega arith) to))
]

-- A cycle that is asked for keeps its origin: asked for again, at any later time, it has the origin
-- that it had, and still has it when generations were given up in between, if the cycle is not before
-- the first cycle that new requests begin at, and lies between the first and the last that are needed.
pub generation_origin_stays :
    (a : GenerationAvailability) (cycle now later first : ℕ) (cycles : List ℕ)
    → a.oldest_retained_cycle ≤ cycle
    → first ≤ cycle
    → cycle ≤ last_of first cycles
    → let (origin, a') = generation_origin cycle now a in
      ((generation_origin cycle later a').0 ≡ origin)
      × ((generation_origin cycle later (retain_generations (first ∷ cycles) a')).0 ≡ origin)
generation_origin_stays a cycle now later first cycles old from to =
    let (again, oldest) = asked_again cycle now later a in
    let (origin, a') = generation_origin cycle now a in
    (again, retained cycle later first cycles a' (omega (arith, oldest)) from to ∙ again)
