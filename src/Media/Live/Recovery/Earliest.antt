-- ===== src/Media/Live/Recovery/Earliest.antt =====
-- The choice of a recovery boundary in LiveMediaQueue (src/live_media_queue.h):
-- recovery_timestamps and find_recovery.
use moqxr.Common.{
  ℕ, suc, ◌≤◌, ◌<◌, ◌≡◌, refl, sym, ap, ◌∙◌, Bool, true, false, ◌&&◌, ◌||◌, none, some, List, [],
  ◌∷◌, ◌++◌, arith, ◌==◌, ltb,
}
use moqxr.Common.{nat_eq}
use moqxr.Common.Sets.{member}
use moqxr.Media.Live.{
  Entry, is_media, no_decodable_boundary, LiveMediaQueue, measure, within_limits,
}
use moqxr.Media.Live.Push.{insert_timestamp, recovery_timestamps, find_recovery, admit_entry}

abbrev Ascends : ℕ → List ℕ → Type 0
Ascends n [] = Unit {0}
Ascends n (t ∷ ts) = (n ≤ t) × Ascends (suc t) ts

Ascends-weaken : (m n : ℕ) (ts : List ℕ) → m ≤ n → Ascends n ts → Ascends m ts
Ascends-weaken m n [] h a = tt
Ascends-weaken m n (t ∷ ts) h a = (omega arith, a.1)

insert-Ascends : (n t : ℕ) (ts : List ℕ) → n ≤ t → Ascends n ts → Ascends n (insert_timestamp t ts)
unfolding insert_timestamp
insert-Ascends n t [] h a = (h, tt)
insert-Ascends n t (u ∷ us) h a = ground (arith, insert-Ascends (suc u) t us)

member-insert :
    (t u : ℕ) (ts : List ℕ) → member u (insert_timestamp t ts) ≡ ((t == u) || member u ts)
unfolding insert_timestamp member
member-insert t u [] = refl
member-insert t u (v ∷ ts) = ground (arith, member-insert t u ts)

collect-Ascends :
    (es : List Entry) (ts : List ℕ) → Ascends 0 ts → Ascends 0 (recovery_timestamps es ts)
unfolding recovery_timestamps
collect-Ascends [] ts a = a
collect-Ascends (e ∷ es) ts a =
    collect-Ascends es _ (ground (arith, insert-Ascends 0 e.fragment.start_time_us ts))

-- Some media entry is a keyframe that starts at `t`.
unfoldable pub has_keyframe : ℕ → List Entry → Bool
has_keyframe t [] = false
has_keyframe t (e ∷ es) =
    ((is_media e.role && e.fragment.is_video_keyframe) && e.fragment.start_time_us == t)
    || has_keyframe t es

member-collect :
    (t : ℕ) (es : List Entry) (ts : List ℕ)
    → member t (recovery_timestamps es ts) ≡ (has_keyframe t es || member t ts)
unfolding recovery_timestamps has_keyframe
member-collect t [] ts = refl
member-collect t (e ∷ es) ts = ground (
  arith,
  member-collect t es ts,
  member-collect t es (insert_timestamp e.fragment.start_time_us ts),
  member-insert e.fragment.start_time_us t ts,
)

abbrev pub fits_behind : LiveMediaQueue → List Entry → ℕ → Bool
fits_behind q es t = within_limits q (measure q.video_tracks es (some t))

Ascends-below : (n t : ℕ) (ts : List ℕ) → Ascends n ts → t < n → member t ts ≡ false
unfolding member
Ascends-below n t [] a h = refl
Ascends-below n t (u ∷ us) a h = ground (arith, Ascends-below (suc u) t us)

find-some :
    (q : LiveMediaQueue) (es : List Entry) (ts : List ℕ) (b : ℕ)
    → find_recovery q es ts ≡ some b
    → (member b ts ≡ true) × (fits_behind q es b ≡ true)
unfolding find_recovery member
find-some q es [] b f = cc
find-some q es (u ∷ us) b f =
    ground (arith, find-some q es us b, λ (p : u ≡ b). ap (fits_behind q es) p)

find-earliest :
    (q : LiveMediaQueue) (es : List Entry) (n : ℕ) (ts : List ℕ) (b t : ℕ)
    → Ascends n ts
    → find_recovery q es ts ≡ some b
    → t < b
    → member t ts ≡ true
    → fits_behind q es t ≡ false
unfolding find_recovery member
find-earliest q es n [] b t a f less m = cc
find-earliest q es n (u ∷ us) b t a f less m = ground (
  arith,
  find-earliest q es (suc u) us b t a.1,
  Ascends-below (suc u) t us a.1,
  λ (p : u ≡ t). ap (fits_behind q es) p,
)

find-none :
    (q : LiveMediaQueue) (es : List Entry) (ts : List ℕ) (t : ℕ)
    → find_recovery q es ts ≡ none
    → member t ts ≡ true
    → fits_behind q es t ≡ false
unfolding find_recovery member
find-none q es [] t f m = cc
find-none q es (u ∷ us) t f m =
    ground (arith, find-none q es us t, λ (p : u ≡ t). ap (fits_behind q es) p)

timestamps : List Entry → List ℕ
timestamps es = recovery_timestamps es []

timestamps-Ascends : (es : List Entry) → Ascends 0 (timestamps es)
unfolding timestamps
timestamps-Ascends es = collect-Ascends es [] tt

member-timestamps : (t : ℕ) (es : List Entry) → member t (timestamps es) ≡ has_keyframe t es
unfolding timestamps member
member-timestamps t es = ground (arith, member-collect t es [])

-- Where find_recovery takes the timestamp b, a queued keyframe starts at b and the queue fits
-- behind b; and no t is an earlier time at which a queued keyframe starts and behind which the queue
-- fits.
pub recovery-earliest :
    (q : LiveMediaQueue) (es : List Entry) (b t : ℕ)
    → find_recovery q es (recovery_timestamps es []) ≡ some b
    → (has_keyframe b es ≡ true)
      × (fits_behind q es b ≡ true)
      × ((ltb t b && has_keyframe t es && fits_behind q es t) ≡ false)
unfolding timestamps
recovery-earliest q es b t f =
    let found = find-some q es (timestamps es) b f in
    (
      sym (member-timestamps b es) ∙ found.0,
      found.1,
      ground (
        arith,
        find-earliest q es 0 (timestamps es) b t (timestamps-Ascends es) f,
        member-timestamps t es,
      ),
    )

-- Where admit_entry finds no decodable boundary and a keyframe of the entries, with the new one,
-- starts at t: the entries do not fit as they are nor behind t, the queue keeps its entries
-- without the new one, and it is marked as over its limits.
admit_entry-no_boundary :
    (q : LiveMediaQueue) (e : Entry) (t : ℕ)
    → (admit_entry q e).0 ≡ no_decodable_boundary
    → has_keyframe t (q.entries ++ e ∷ []) ≡ true
    → (within_limits q (measure q.video_tracks (q.entries ++ e ∷ []) none) ≡ false)
      × (fits_behind q (q.entries ++ e ∷ []) t ≡ false)
      × ((admit_entry q e).1.entries ≡ q.entries)
      × ((admit_entry q e).1.resource_limit_exceeded ≡ true)
unfolding admit_entry timestamps
admit_entry-no_boundary q e t lost key =
    let es = q.entries ++ e ∷ [] in
    ground (arith, find-none q es (timestamps es) t, member-timestamps t es)
