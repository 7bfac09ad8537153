-- ===== src/Media/Live/Bounds/Monotone.antt =====
-- `measure` of LiveMediaQueue (src/live_media_queue.h), with and without the first entry.
use moqxr.Common.{
  ℕ, ◌≤◌, ◌≡◌, refl, ◌∙◌, true, false, Option, none, some, List, [], ◌∷◌, arith, All,
}
use Prim.Native.String.{String}
use moqxr.Common.Bytes.{IsU64}
use moqxr.Media.Live.{
  Entry, Started, LiveMediaQueue, QueueBounds, Measuring, first_of, media_end, media_end_overflow,
  measure_bytes, measure_entry, measure_loop, measure, unmeasured, finish_measure, within_limits,
  counts,
}

-- A fragment's times are 64-bit numbers.
pub record IsWord (e : Entry) : Type 0 where
  pub start : IsU64 e.fragment.start_time_us
  pub span : IsU64 e.fragment.duration_us

abbrev FirstIn : Option ℕ → ℕ → Type 0
FirstIn none last = Unit {0}
FirstIn (some t) last = t ≤ last

abbrev FirstLess : Option ℕ → Option ℕ → Type 0
FirstLess none o = Unit {0}
FirstLess (some t) none = ⊥
FirstLess (some t) (some t') = t' ≤ t

FirstLess-refl : (o : Option ℕ) → FirstLess o o
FirstLess-refl none = tt
FirstLess-refl (some t) = omega arith

FirstLess-step :
    (o o' : Option ℕ) (start : ℕ) → FirstLess o o' → first_of o' start ≤ first_of o start
FirstLess-step none none start h = omega arith
FirstLess-step none (some t') start h = omega arith
FirstLess-step (some t) none start h = absurd h
FirstLess-step (some t) (some t') start h = omega arith

-- The times that the loop keeps are in order, and are 64-bit numbers.
abbrev Ordered : Measuring → Type 0
Ordered m = FirstIn m.first_media_time m.last_media_end × IsU64 m.last_media_end

-- `m` has seen part of what `m'` has seen.
pub record Less (m m' : Measuring) : Type 0 where
  pub sized :
      m'.bounds.bytes_overflow ≡ false
      → (m.bounds.bytes_overflow ≡ false) × (m.bounds.bytes ≤ m'.bounds.bytes)
  pub timed : m'.bounds.media_time_overflow ≡ false → m.bounds.media_time_overflow ≡ false
  pub last : m.last_media_end ≤ m'.last_media_end
  pub first : FirstLess m.first_media_time m'.first_media_time

Less-refl : (m : Measuring) → Less m m
Less-refl m = record {
  sized = λ h. (h, omega arith);
  timed = λ h. h;
  last = omega arith;
  first = FirstLess-refl m.first_media_time;
}

first_of-le : (o : Option ℕ) (start : ℕ) → first_of o start ≤ start
first_of-le none start = omega arith
first_of-le (some t) start = omega arith

media_end_bounds :
    (e : Entry)
    → IsWord e
    → (e.fragment.start_time_us ≤ media_end e.fragment) × IsU64 (media_end e.fragment)
unfolding media_end media_end_overflow
media_end_bounds e w = ground arith

entry-Ordered : (e : Entry) (m : Measuring) → IsWord e → Ordered m → Ordered (measure_entry e m)
unfolding measure_entry
entry-Ordered e m w h =
    ground (arith, media_end_bounds e w, first_of-le m.first_media_time e.fragment.start_time_us)

-- What the bytes of two measures owe each other.
abbrev Sized : QueueBounds → QueueBounds → Type 0
Sized b b' = b'.bytes_overflow ≡ false → (b.bytes_overflow ≡ false) × (b.bytes ≤ b'.bytes)

bytes-Sized :
    (e : Entry) (b b' : QueueBounds) → Sized b b' → Sized (measure_bytes e b) (measure_bytes e b')
unfolding measure_bytes
bytes-Sized e b b' h k = ground arith

bytes-timed :
    (e : Entry) (b : QueueBounds) → (measure_bytes e b).media_time_overflow ≡ b.media_time_overflow
unfolding measure_bytes
bytes-timed e b = ground arith

bytes-grow : (e : Entry) (b : QueueBounds) → Sized b (measure_bytes e b)
unfolding measure_bytes
bytes-grow e b k = ground arith

module _ (e : Entry) (m m' : Measuring) (h : Less m m') where
  entry-Sized : Sized (measure_entry e m).bounds (measure_entry e m').bounds
  unfolding measure_entry
  entry-Sized k = ground (arith, bytes-Sized e m.bounds m'.bounds h.sized)

  entry-timed :
      (measure_entry e m').bounds.media_time_overflow ≡ false
      → (measure_entry e m).bounds.media_time_overflow ≡ false
  unfolding measure_entry
  entry-timed k = ground (arith, bytes-timed e m.bounds, bytes-timed e m'.bounds, h.timed)

  entry-last : (measure_entry e m).last_media_end ≤ (measure_entry e m').last_media_end
  unfolding measure_entry
  entry-last = ground (arith, h.last)

  entry-first : FirstLess (measure_entry e m).first_media_time (measure_entry e m').first_media_time
  unfolding measure_entry
  entry-first = ground (
    arith,
    h.first,
    FirstLess-step m.first_media_time m'.first_media_time e.fragment.start_time_us,
  )

  entry-Less : Less (measure_entry e m) (measure_entry e m')
  entry-Less = record {
    sized = entry-Sized;
    timed = entry-timed;
    last = entry-last;
    first = entry-first;
  }

-- Both loops run over the same entries.
loop-Less :
    (vt : List String) (es : List Entry) (s : Started) (m m' : Measuring)
    → Less m m'
    → Less (measure_loop vt none es s m) (measure_loop vt none es s m')
unfolding measure_loop counts
loop-Less vt [] s m m' h = h
loop-Less vt (e ∷ es) s m m' h =
    loop-Less vt es s (measure_entry e m) (measure_entry e m') (entry-Less e m m' h)

loop-Ordered :
    (vt : List String) (es : List Entry) (s : Started) (m : Measuring)
    → All IsWord es
    → Ordered m
    → Ordered (measure_loop vt none es s m)
unfolding measure_loop counts
loop-Ordered vt [] s m w h = h
loop-Ordered vt (e ∷ es) s m w h =
    loop-Ordered vt es s (measure_entry e m) w.1 (entry-Ordered e m w.0 h)

-- The duration is left to the end.
entry-duration :
    (e : Entry) (m : Measuring)
    → (measure_entry e m).bounds.media_duration ≡ m.bounds.media_duration
unfolding measure_entry measure_bytes
entry-duration e m = ground arith

loop-duration :
    (vt : List String) (es : List Entry) (s : Started) (m : Measuring)
    → (measure_loop vt none es s m).bounds.media_duration ≡ m.bounds.media_duration
unfolding measure_loop counts
loop-duration vt [] s m = refl
loop-duration vt (e ∷ es) s m = loop-duration vt es s (measure_entry e m) ∙ entry-duration e m

unmeasured-Less : (m : Measuring) → Less unmeasured m
unmeasured-Less m = record {
  sized = λ h. (refl, omega arith);
  timed = λ h. refl;
  last = omega arith;
  first = tt;
}

-- With times in order a smaller measure has a smaller duration.
finish-Less :
    (q : LiveMediaQueue) (m m' : Measuring)
    → Less m m'
    → Ordered m
    → Ordered m'
    → m.bounds.media_duration ≡ 0
    → within_limits q (finish_measure m') ≡ true
    → within_limits q (finish_measure m) ≡ true
unfolding finish_measure within_limits
finish-Less q m m' h o o' z w = ground (arith, h.first, h.last, h.timed, h.sized)

pub measure-tail :
    (q : LiveMediaQueue) (vt : List String) (e : Entry) (es : List Entry)
    → All IsWord (e ∷ es)
    → within_limits q (measure vt (e ∷ es) none) ≡ true
    → within_limits q (measure vt es none) ≡ true
unfolding measure measure_loop counts
measure-tail q vt e es w h =
    let first = entry-Ordered e unmeasured w.0 (tt, omega arith) in
    finish-Less q _ _
      (loop-Less vt es [] unmeasured (measure_entry e unmeasured)
        (unmeasured-Less (measure_entry e unmeasured)))
      (loop-Ordered vt es [] unmeasured w.1 (tt, omega arith))
      (loop-Ordered vt es [] (measure_entry e unmeasured) w.1 first)
      (loop-duration vt es [] unmeasured) h
