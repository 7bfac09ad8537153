-- ===== src/Media/Live/Recovery.antt =====
-- The recovery of LiveMediaQueue (src/live_media_queue.h) and the keyframes of its video tracks.
pub mod Starts
pub mod Earliest
use moqxr.Common.{
  ℕ, zero, suc, ◌+◌, ◌-◌, ◌*◌, ◌/◌, ◌%◌, ◌^◌, ◌≤◌, ◌<◌, ◌≡◌, ◌≢◌, ◌⊎◌, inl, inr, refl, sym, ap, ◌∙◌,
  Bool, true, false, not, ◌&&◌, ◌||◌, Option, none, some, List, [], ◌∷◌, ◌++◌, map, arith, ltb, leb,
  ◌==◌, if◌then◌else◌, length, get_or, take, drop, All, get_or-append, length-append, append-nil,
  append_assoc, Bool-cases, Option-cases, ◌>>=◌,
}
use Prim.Native.String.{String}
use moqxr.Common.{text_key, Eq}
use moqxr.Common.Assoc.{lookup}
use moqxr.Common.Sets.{member, add, remove, member-remove, member-add}
use text.Mathlib.TextEquality.{eq_iff}
use moqxr.Media.Live.{
  Entry, Started, LiveMediaAdmission, accepted, shed_to_keyframe, no_decodable_boundary,
  LiveMediaFragmentRole, MediaFragment, media, initialization, LiveMediaQueue, measure,
  apply_bounds,
}
use moqxr.Media.Live.Push.{
  note_video, screen_media, screen, retain_loop, recover, admit_entry, push,
}
use Starts.{
  first_media, IsStart, is_some, retain-first, retain-started, retain-Distinct,
  member-erase_started,
}

-- Behind a recovery at any boundary, a track that the queue knows as video has a keyframe as its
-- first queued media fragment, or no fragment; and it awaits a keyframe exactly when it has none.
pub recover-starts :
    (q : LiveMediaQueue) (es : List Entry) (b : ℕ) (name : String)
    → member name q.video_tracks ≡ true
    → IsStart (first_media name (recover q es b).entries)
      × (member name (recover q es b).awaiting_recovery_keyframe
          ≡ not (is_some (first_media name (recover q es b).entries)))
unfolding recover apply_bounds lookup
recover-starts q es b name v =
    let r = retain_loop q.video_tracks b es [] in
    (
      retain-first q.video_tracks b name es [] v refl,
      ground (
        arith,
        member-erase_started name r.1 q.video_tracks (retain-Distinct q.video_tracks b es [] tt),
        retain-started q.video_tracks b name es [] v refl,
      ),
    )

-- While the queue is within its limits, a media fragment that is no keyframe, of a video track
-- that awaits its keyframe, is shed: the entries stay as they are and the track still awaits its
-- keyframe.
push-awaiting :
    (q : LiveMediaQueue) (fragment : MediaFragment)
    → q.resource_limit_exceeded ≡ false
    → member fragment.track_name q.video_tracks ≡ true
    → member fragment.track_name q.awaiting_recovery_keyframe ≡ true
    → fragment.is_video_keyframe ≡ false
    → ((push q fragment media).0 ≡ shed_to_keyframe)
      × ((push q fragment media).1.entries ≡ q.entries)
      × (member fragment.track_name (push q fragment media).1.awaiting_recovery_keyframe ≡ true)
unfolding push screen screen_media
push-awaiting q fragment open_queue video waits delta = ground arith
