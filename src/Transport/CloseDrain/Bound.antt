-- ===== src/Transport/CloseDrain/Bound.antt =====
-- The bound of CloseDrainTracker (src/transport/picoquic_close_drain.h) and the delivery timeouts
-- of a session.
use moqxr.Common.{ℕ, ◌≤◌, ◌<◌, ◌≡◌, refl, not, List, [], ◌∷◌, arith, ◌==◌, if◌then◌else◌}
use Prim.Native.Nat.{min, max}
use moqxr.Transport.CloseDrain.{
  CloseDrainTracker, default_close_drain_timeout, max_close_drain_timeout, reset,
  note_delivery_timeout,
}

-- The session's delivery timeouts, noted one after the other.
pub note_all : List ℕ → CloseDrainTracker → CloseDrainTracker
note_all [] tracker = tracker
note_all (t ∷ ts) tracker = note_all ts (note_delivery_timeout t tracker)

-- The largest of them, each held at the ceiling.
largest : List ℕ → ℕ
largest [] = 0
largest (t ∷ ts) = max (min t max_close_drain_timeout) (largest ts)

abbrev Bounded : ℕ → CloseDrainTracker → Type 0
Bounded seen tracker =
    (tracker.bound_negotiated ≡ not (seen == 0))
    × (tracker.bound ≡ (if seen == 0 then default_close_drain_timeout else seen))

note-Bounded :
    (t seen : ℕ) (tracker : CloseDrainTracker)
    → Bounded seen tracker
    → Bounded (max seen (min t max_close_drain_timeout)) (note_delivery_timeout t tracker)
unfolding note_delivery_timeout
note-Bounded t seen tracker b = ground arith

note_all-Bounded :
    (ts : List ℕ) (seen : ℕ) (tracker : CloseDrainTracker)
    → Bounded seen tracker
    → Bounded (max seen (largest ts)) (note_all ts tracker)
unfolding note_all largest
note_all-Bounded [] seen tracker b = ground arith
note_all-Bounded (t ∷ ts) seen tracker b = ground (
  arith,
  note_all-Bounded ts (max seen (min t max_close_drain_timeout)) (note_delivery_timeout t tracker)
      (note-Bounded t seen tracker b),
)

largest-le : (ts : List ℕ) → largest ts ≤ max_close_drain_timeout
unfolding largest
largest-le [] = omega arith
largest-le (t ∷ ts) = ground (arith, largest-le ts)

-- After any delivery timeouts, noted from a reset tracker, the close is bounded by the largest of them,
-- each held at 30 seconds, or by 10 seconds where none was positive; so it is positive and at most 30
-- seconds.
note_all-bound :
    (ts : List ℕ)
    → ((note_all ts reset).bound
        ≡ (if largest ts == 0 then default_close_drain_timeout else largest ts))
      × (0 < (note_all ts reset).bound)
      × ((note_all ts reset).bound ≤ max_close_drain_timeout)
unfolding reset
note_all-bound ts = ground (arith, note_all-Bounded ts 0 reset (refl, refl), largest-le ts)
