-- ===== src/Media/Live/Push.antt =====
-- src/live_media_queue.h, the methods of LiveMediaQueue that change it, with LiveSrtQueueAdapter,
-- which stops the source when the queue has given up.
use moqxr.Common.{
  ℕ, Bool, true, false, not, ◌&&◌, ◌||◌, Option, none, some, List, [], ◌∷◌, ◌++◌, ltb, ◌==◌,
  if◌then◌else◌,
}
use Prim.Native.String.{String}
use moqxr.Common.{text_key}
use moqxr.Common.Sets.{member, add, remove}
use moqxr.Media.Live.{
  LiveMediaAdmission, accepted, shed_to_keyframe, no_decodable_boundary, LiveMediaFragmentRole,
  media, initialization, MediaFragment, Entry, LiveMediaQueue, is_media, is_video_fragment, Started,
  should_retain, measure, within_limits, apply_bounds,
}

-- The names of video tracks are learnt from the fragments.
unfoldable pub note_video : LiveMediaQueue → MediaFragment → Bool × LiveMediaQueue
note_video q fragment =
    let name = fragment.track_name in
    let is_video = member name q.video_tracks || is_video_fragment fragment in
    let inserted = not (member name q.video_tracks) in
    (
      is_video,
      if is_video
          then record q {
            video_tracks = add name q.video_tracks;
            awaiting_recovery_keyframe = elim q.active_recovery_boundary [
              | none ↦ q.awaiting_recovery_keyframe
              | some b ↦
                  if inserted
                  then add name q.awaiting_recovery_keyframe
                  else q.awaiting_recovery_keyframe
            ];
          }
          else q,
    )

-- active_recovery_boundary_.has_value() && start_time_us < active_recovery_boundary_->start_time_us
abbrev pub is_behind : Option ℕ → MediaFragment → Bool
is_behind none fragment = false
is_behind (some boundary) fragment = ltb fragment.start_time_us boundary

-- The gate for media fragments: whether the fragment is shed, and the queue after it.
unfoldable pub screen_media : LiveMediaQueue → MediaFragment → Bool × LiveMediaQueue
unfolding note_video
screen_media q fragment =
    let (is_video, q') = note_video q fragment in
    let name = fragment.track_name in
    if is_behind q'.active_recovery_boundary fragment
    then (true, q')
    else if is_video && member name q'.awaiting_recovery_keyframe
    then if not fragment.is_video_keyframe then (true, q') else (
      false,
      record q' { awaiting_recovery_keyframe = remove name q'.awaiting_recovery_keyframe },
    )
    else (false, q')

unfoldable pub screen :
    LiveMediaFragmentRole → LiveMediaQueue → MediaFragment → Bool × LiveMediaQueue
screen media q fragment = screen_media q fragment
screen initialization q fragment = (false, q)

-- An insertion into the std::set of timestamps, which ascends.
unfoldable pub insert_timestamp : ℕ → List ℕ → List ℕ
insert_timestamp t [] = t ∷ []
insert_timestamp t (u ∷ us) =
    if ltb t u then t ∷ u ∷ us else if t == u then u ∷ us else u ∷ insert_timestamp t us

unfoldable pub recovery_timestamps : List Entry → List ℕ → List ℕ
recovery_timestamps [] timestamps = timestamps
recovery_timestamps (entry ∷ entries) timestamps = recovery_timestamps entries (
    if is_media entry.role && entry.fragment.is_video_keyframe
    then insert_timestamp entry.fragment.start_time_us timestamps
    else timestamps)

-- The first timestamp behind which the queue fits.
unfoldable pub find_recovery : LiveMediaQueue → List Entry → List ℕ → Option ℕ
find_recovery q entries [] = none
find_recovery q entries (timestamp ∷ rest) =
    if within_limits q (measure q.video_tracks entries (some timestamp))
    then some timestamp
    else find_recovery q entries rest

-- The entries that stay behind the boundary, and the tracks that have started there.
unfoldable pub retain_loop : List String → ℕ → List Entry → Started → List Entry × Started
retain_loop video_tracks boundary [] started = ([], started)
retain_loop video_tracks boundary (entry ∷ entries) started =
    let (stays, started') = should_retain video_tracks entry boundary started in
    let (retained, started'') = retain_loop video_tracks boundary entries started' in
    ((if stays then entry ∷ retained else retained), started'')

unfoldable pub erase_started : Started → List String → List String
erase_started [] names = names
erase_started ((name, started) ∷ rest) names =
    erase_started rest (if started then remove name names else names)

unfoldable pub recover : LiveMediaQueue → List Entry → ℕ → LiveMediaQueue
recover q entries boundary =
    let (retained, started) = retain_loop q.video_tracks boundary entries [] in
    apply_bounds
      (record q {
        entries = retained;
        active_recovery_boundary = some boundary;
        awaiting_recovery_keyframe = erase_started started q.video_tracks;
      })
      (measure q.video_tracks retained none)

-- The part of `push` behind the gate.
unfoldable pub admit_entry : LiveMediaQueue → Entry → LiveMediaAdmission × LiveMediaQueue
admit_entry q entry =
    let entries = q.entries ++ entry ∷ [] in
    let bounds = measure q.video_tracks entries none in
    if within_limits q bounds
    then (accepted, apply_bounds (record q { entries = entries }) bounds)
    else elim (find_recovery q entries (recovery_timestamps entries [])) [
      | none ↦ (no_decodable_boundary, record q { resource_limit_exceeded = true })
      | some boundary ↦ (shed_to_keyframe, recover q entries boundary)
    ]

unfoldable pub push :
    LiveMediaQueue → MediaFragment → LiveMediaFragmentRole → LiveMediaAdmission × LiveMediaQueue
push q fragment role =
    if q.resource_limit_exceeded
    then (no_decodable_boundary, q)
    else let (shed, q') = screen role q fragment in
      if shed
      then (shed_to_keyframe, q')
      else admit_entry q' (record { fragment = fragment; role = role })

-- try_pop, with the entries as an argument.
unfoldable pub pop_front : LiveMediaQueue → List Entry → Option MediaFragment × LiveMediaQueue
pop_front q [] = (none, q)
pop_front q (entry ∷ entries) = (
  some entry.fragment,
  apply_bounds (record q { entries = entries }) (measure q.video_tracks entries none),
)

unfoldable pub try_pop : LiveMediaQueue → Option MediaFragment × LiveMediaQueue
try_pop q = pop_front q q.entries

unfoldable pub mark_eof : LiveMediaQueue → LiveMediaQueue
mark_eof q = record q { eof = true }

abbrev is_nil : List Entry → Bool
is_nil [] = true
is_nil (entry ∷ entries) = false

unfoldable pub done : LiveMediaQueue → Bool
done q = q.eof && is_nil q.entries

-- LiveSrtQueueAdapter: the queue and the flag that stops the source.
pub record LiveSrtQueueAdapter : Type 0 where
  pub queue : LiveMediaQueue
  pub stop_requested : Bool

-- The flag after a verdict.
abbrev pub stops : LiveMediaAdmission → Bool → Bool
stops no_decodable_boundary stop = true
stops _ stop = stop

unfoldable pub admit :
    LiveSrtQueueAdapter → MediaFragment → LiveMediaAdmission × LiveSrtQueueAdapter
admit adapter fragment =
    let (admission, queue) = push adapter.queue fragment media in
    (admission, record { queue = queue; stop_requested = stops admission adapter.stop_requested })
