-- ===== src/Media/Live/Bounds.antt =====
-- The limits of LiveMediaQueue (src/live_media_queue.h) and the invariant behind them.
pub mod Monotone
use moqxr.Common.{
  ℕ, zero, suc, ◌+◌, ◌-◌, ◌*◌, ◌/◌, ◌%◌, ◌^◌, ◌≤◌, ◌<◌, ◌≡◌, ◌≢◌, ◌⊎◌, inl, inr, refl, sym, ap, ◌∙◌,
  Bool, true, false, not, ◌&&◌, ◌||◌, Option, none, some, List, [], ◌∷◌, ◌++◌, map, arith, ltb, leb,
  ◌==◌, if◌then◌else◌, length, get_or, take, drop, All, get_or-append, length-append, append-nil,
  append_assoc, Bool-cases, Option-cases, ◌>>=◌,
}
use Prim.Native.String.{String}
use moqxr.Common.Bytes.{IsU64}
use moqxr.Media.Live.{
  Entry, Started, LiveMediaAdmission, LiveMediaFragmentRole, MediaFragment, media, initialization,
  LiveMediaQueue, QueueBounds, should_retain, measure, within_limits, apply_bounds, new,
  finish_measure, measure_loop, unmeasured,
}
use moqxr.Media.Live.Push.{
  note_video, screen_media, screen, recovery_timestamps, find_recovery, retain_loop, recover,
  admit_entry, push, pop_front, try_pop, mark_eof,
}
use Monotone.{IsWord, measure-tail}
use moqxr.Common.{All-append}
use moqxr.Media.Live.Measure.{measure-retain, measure-tracks}

abbrev measured : LiveMediaQueue → QueueBounds
measured q = measure q.video_tracks q.entries none

pub record IsValid (q : LiveMediaQueue) : Type 0 where
  pub counted : q.queued_bytes ≡ (measured q).bytes
  pub timed : q.queued_media_duration ≡ (measured q).media_duration
  pub within : within_limits q (measured q) ≡ true
  pub words : All IsWord q.entries

pub new-IsValid : (max_bytes max_media_duration : ℕ) → IsValid (new max_bytes max_media_duration)
unfolding new measure measure_loop finish_measure within_limits
new-IsValid b d = ground arith

-- The same entries, limits and counts.
Same : LiveMediaQueue → LiveMediaQueue → Type 0
Same q q' =
    (q'.entries ≡ q.entries)
    × (q'.max_bytes ≡ q.max_bytes)
    × (q'.max_media_duration ≡ q.max_media_duration)
    × (q'.queued_bytes ≡ q.queued_bytes)
    × (q'.queued_media_duration ≡ q.queued_media_duration)

screen-Same :
    (role : LiveMediaFragmentRole) (q : LiveMediaQueue) (fragment : MediaFragment)
    → Same q (screen role q fragment).1
unfolding screen screen_media Same
screen-Same media q fragment = ground arith
screen-Same initialization q fragment = ground arith

-- Limits are all that `within_limits` reads of a queue.
within-Same :
    (q q' : LiveMediaQueue) (b : QueueBounds) → Same q q' → within_limits q' b ≡ within_limits q b
unfolding within_limits Same
within-Same q q' b s = rw (s.1, s.2)

measured-Same : (q q' : LiveMediaQueue) → Same q q' → measured q' ≡ measured q
unfolding Same
measured-Same q q' s = rw s.0 (measure-tracks q'.video_tracks q.video_tracks q.entries)

Same-IsValid : (q q' : LiveMediaQueue) → Same q q' → IsValid q → IsValid q'
unfolding Same
Same-IsValid q q' s v =
    let m = measured-Same q q' s in
    record {
      counted = s.3 ∙ v.counted ∙ ap (λ (b : QueueBounds). b.bytes) (sym m);
      timed = s.4 ∙ v.timed ∙ ap (λ (b : QueueBounds). b.media_duration) (sym m);
      within = within-Same q q' (measured q') s ∙ ap (within_limits q) m ∙ v.within;
      words = rw s.0 v.words;
    }

find_recovery-within :
    (q : LiveMediaQueue) (es : List Entry) (ts : List ℕ) (b : ℕ)
    → find_recovery q es ts ≡ some b
    → within_limits q (measure q.video_tracks es (some b)) ≡ true
unfolding find_recovery
find_recovery-within q es [] b e = cc
find_recovery-within q es (t ∷ ts) b e = ground (
  arith,
  find_recovery-within q es ts b,
  λ (p : t ≡ b). ap (λ (u : ℕ). within_limits q (measure q.video_tracks es (some u))) p,
)

retain-words :
    (vt : List String) (b : ℕ) (es : List Entry) (s : Started)
    → All IsWord es
    → All IsWord (retain_loop vt b es s).0
unfolding retain_loop
retain-words vt b [] s w = tt
retain-words vt b (e ∷ es) s w = ground (arith, retain-words vt b es (should_retain vt e b s).1 w.1)

recover-IsValid :
    (q : LiveMediaQueue) (es : List Entry) (b : ℕ)
    → All IsWord es
    → within_limits q (measure q.video_tracks es (some b)) ≡ true
    → IsValid (recover q es b)
unfolding recover apply_bounds within_limits
recover-IsValid q es b w h =
    let kept = retain_loop q.video_tracks b es [] in
    record {
      counted = refl;
      timed = refl;
      within = rw (measure-retain q.video_tracks b es) at h;
      words = retain-words q.video_tracks b es [] w;
    }

fits-IsValid :
    (q : LiveMediaQueue) (es : List Entry)
    → All IsWord es
    → within_limits q (measure q.video_tracks es none) ≡ true
    → IsValid (apply_bounds (record q { entries = es }) (measure q.video_tracks es none))
unfolding apply_bounds within_limits
fits-IsValid q es w h = record { counted = refl; timed = refl; within = h; words = w }

lost-IsValid :
    (q : LiveMediaQueue) → IsValid q → IsValid (record q { resource_limit_exceeded = true })
unfolding within_limits
lost-IsValid q v = record {
  counted = v.counted;
  timed = v.timed;
  within = v.within;
  words = v.words;
}

pop_front-IsValid :
    (q : LiveMediaQueue) (es : List Entry)
    → All IsWord es
    → within_limits q (measure q.video_tracks es none) ≡ true
    → IsValid q
    → IsValid (pop_front q es).1
unfolding pop_front
pop_front-IsValid q [] w h v = v
pop_front-IsValid q (e ∷ es) w h v = fits-IsValid q es w.1 (measure-tail q q.video_tracks e es w h)

admit_entry-IsValid :
    (q : LiveMediaQueue) (e : Entry) → IsWord e → IsValid q → IsValid (admit_entry q e).1
unfolding admit_entry
admit_entry-IsValid q e w v =
    let es = q.entries ++ e ∷ [] in
    let words = All-append IsWord q.entries (e ∷ []) v.words (w, tt) in
    elim (Bool-cases (within_limits q (measure q.video_tracks es none))) [
      | inl fits ↦ rw (fits, if◌then◌else◌) (fits-IsValid q es words fits)
      | inr over ↦
          rw (over, if◌then◌else◌)
            (elim (Option-cases (find_recovery q es (recovery_timestamps es []))) [
              | inl lost ↦ rw (lost, admit_entry) (lost-IsValid q v)
              | inr (b, found) ↦
                  rw (found, admit_entry)
                    (recover-IsValid q es b words (find_recovery-within q es _ b found))
            ])
    ]

-- A push of a fragment whose start and duration are 64-bit numbers keeps the invariant of the live
-- queue, whatever its verdict: the counts are what measure finds in the entries, and they are
-- within the limits.
push-IsValid :
    (q : LiveMediaQueue) (fragment : MediaFragment) (role : LiveMediaFragmentRole)
    → IsU64 fragment.start_time_us
    → IsU64 fragment.duration_us
    → IsValid q
    → IsValid (push q fragment role).1
unfolding push
push-IsValid q fragment role start span v =
    let r = screen role q fragment in
    let v' = Same-IsValid q r.1 (screen-Same role q fragment) v in
    let e : Entry = record { fragment = fragment; role = role } in
    ground (arith, v', admit_entry-IsValid r.1 e (record { start = start; span = span }) v')

-- A pop keeps the invariant of the live queue.
try_pop-IsValid : (q : LiveMediaQueue) → IsValid q → IsValid (try_pop q).1
unfolding try_pop
try_pop-IsValid q v = pop_front-IsValid q q.entries v.words v.within v

-- What the publisher sees of a valid queue: both counts are within the limits.
IsValid-limits :
    (q : LiveMediaQueue)
    → IsValid q
    → (q.queued_bytes ≤ q.max_bytes) × (q.queued_media_duration ≤ q.max_media_duration)
unfolding within_limits
IsValid-limits q v = ground (arith, v.counted, v.timed, v.within)

-- The calls on a queue.
pub data Call : Type 0 where
  pushes : MediaFragment → LiveMediaFragmentRole → Call
  pops : Call

pub step : LiveMediaQueue → Call → LiveMediaQueue
step q (pushes fragment role) = (push q fragment role).1
step q pops = (try_pop q).1

pub run : LiveMediaQueue → List Call → LiveMediaQueue
run q [] = q
run q (c ∷ cs) = run (step q c) cs

abbrev pub IsWordCall : Call → Type 0
IsWordCall (pushes fragment role) = IsU64 fragment.start_time_us × IsU64 fragment.duration_us
IsWordCall pops = Unit {0}

step-IsValid : (q : LiveMediaQueue) (c : Call) → IsWordCall c → IsValid q → IsValid (step q c)
unfolding step
step-IsValid q (pushes fragment role) w v = push-IsValid q fragment role w.0 w.1 v
step-IsValid q pops w v = try_pop-IsValid q v

run-IsValid :
    (q : LiveMediaQueue) (cs : List Call) → All IsWordCall cs → IsValid q → IsValid (run q cs)
unfolding run
run-IsValid q [] w v = v
run-IsValid q (c ∷ cs) w v = run-IsValid (step q c) cs w.1 (step-IsValid q c w.0 v)

-- The limits never change.
KeepsLimits : LiveMediaQueue → LiveMediaQueue → Type 0
KeepsLimits q q' = (q'.max_bytes ≡ q.max_bytes) × (q'.max_media_duration ≡ q.max_media_duration)

admit_entry-KeepsLimits : (q : LiveMediaQueue) (e : Entry) → KeepsLimits q (admit_entry q e).1
unfolding admit_entry recover apply_bounds KeepsLimits
admit_entry-KeepsLimits q e = ground arith

step-KeepsLimits : (q : LiveMediaQueue) (c : Call) → KeepsLimits q (step q c)
unfolding step push try_pop pop_front apply_bounds KeepsLimits Same
step-KeepsLimits q (pushes fragment role) =
    let r = screen role q fragment in
    ground (
      arith,
      admit_entry-KeepsLimits r.1 (record { fragment = fragment; role = role }),
      screen-Same role q fragment,
    )
step-KeepsLimits q pops = ground arith

run-KeepsLimits : (q : LiveMediaQueue) (cs : List Call) → KeepsLimits q (run q cs)
unfolding run KeepsLimits
run-KeepsLimits q [] = (refl, refl)
run-KeepsLimits q (c ∷ cs) =
    let (a, b) = run-KeepsLimits (step q c) cs in
    let (a', b') = step-KeepsLimits q c in (a ∙ a', b ∙ b')

-- After any pushes and pops on a new live queue, with 64-bit starts and durations, the queued
-- bytes and the queued duration are within the limits that the queue was made with.
pub run-limits :
    (max_bytes max_media_duration : ℕ) (cs : List Call)
    → All IsWordCall cs
    → ((run (new max_bytes max_media_duration) cs).queued_bytes ≤ max_bytes)
      × ((run (new max_bytes max_media_duration) cs).queued_media_duration ≤ max_media_duration)
unfolding KeepsLimits new
run-limits max_bytes max_media_duration cs w =
    let q = new max_bytes max_media_duration in
    omega (
      arith,
      IsValid-limits (run q cs) (run-IsValid q cs w (new-IsValid max_bytes max_media_duration)),
      run-KeepsLimits q cs,
    )
