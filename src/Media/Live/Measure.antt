-- ===== src/Media/Live/Measure.antt =====
-- `measure` of LiveMediaQueue (src/live_media_queue.h): the entries and the tracks that it reads.
use moqxr.Common.{ℕ, ◌≡◌, inl, inr, refl, ap, none, some, List, [], ◌∷◌, if◌then◌else◌, Bool-cases}
use Prim.Native.String.{String}
use moqxr.Media.Live.{
  Entry, Started, Measuring, should_retain, counts, measure_entry, measure_loop, measure,
  unmeasured, finish_measure,
}
use moqxr.Media.Live.Push.{retain_loop}

measure_loop-retain :
    (vt : List String) (b : ℕ) (es : List Entry) (started s' : Started) (m : Measuring)
    → measure_loop vt (some b) es started m
      ≡ measure_loop vt none (retain_loop vt b es started).0 s' m
unfolding measure_loop retain_loop counts
measure_loop-retain vt b [] started s' m = refl
measure_loop-retain vt b (e ∷ es) started s' m =
    let r = should_retain vt e b started in
    elim (Bool-cases r.0) [
      | inl stays ↦
          rw (stays, if◌then◌else◌) (measure_loop-retain vt b es r.1 s' (measure_entry e m))
      | inr goes ↦ rw (goes, if◌then◌else◌) (measure_loop-retain vt b es r.1 s' m)
    ]

pub measure-retain :
    (vt : List String) (b : ℕ) (es : List Entry)
    → measure vt es (some b) ≡ measure vt (retain_loop vt b es []).0 none
unfolding measure
measure-retain vt b es = ap finish_measure (measure_loop-retain vt b es [] [] unmeasured)

measure_loop-tracks :
    (vt vt' : List String) (es : List Entry) (s s' : Started) (m : Measuring)
    → measure_loop vt none es s m ≡ measure_loop vt' none es s' m
unfolding measure_loop counts
measure_loop-tracks vt vt' [] s s' m = refl
measure_loop-tracks vt vt' (e ∷ es) s s' m = measure_loop-tracks vt vt' es s s' (measure_entry e m)

pub measure-tracks :
    (vt vt' : List String) (es : List Entry) → measure vt es none ≡ measure vt' es none
unfolding measure
measure-tracks vt vt' es = ap finish_measure (measure_loop-tracks vt vt' es [] [] unmeasured)
