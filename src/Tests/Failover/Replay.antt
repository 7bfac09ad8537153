-- ===== src/Tests/Failover/Replay.antt =====
-- A replayable source with one video track.
use moqxr.Common.{ℕ, ◌≡◌, ◌⊎◌, refl, Bool, true, false, some, List, [], ◌∷◌, ◌++◌, arith}
use Prim.Native.String.{String}
use moqxr.Common.{text_key}
use moqxr.Failover.Replay.{
  LiveObject, ReplayableLiveObjectSource, begin_attempt, catalog_of, starts_video, replay_from,
  is_video_track,
}
use moqxr.Failover.Replay.Resumes.{
  has_start, FromLastStart, begin_attempt-FromLastStart, begin_attempt-lost,
}

abbrev object_of : String → ℕ → ℕ → LiveObject
object_of name group object = record {
  track_name = name;
  group_id = group;
  object_id = object;
  payload = [];
}

abbrev tracks : List (String × Bool)
tracks = ("video", true) ∷ ("audio", false) ∷ []

-- A source in its first attempt.
abbrev played : ReplayableLiveObjectSource
played = record {
  tracks = tracks;
  max_buffered_objects = 4;
  attempt_count = 1;
  retained_catalog = some (object_of "catalog" 0 0);
  retained =
      object_of "video" 7 0
      ∷ object_of "audio" 7 0
      ∷ object_of "video" 8 0
      ∷ object_of "audio" 8 1
      ∷ [];
  replay = [];
}

resume_test :
    (begin_attempt played).replay
    ≡ object_of "catalog" 0 0 ∷ object_of "video" 8 0 ∷ object_of "audio" 8 1 ∷ []
unfolding begin_attempt replay_from starts_video is_video_track
resume_test = refl

begin_attempt-FromLastStart_example :
    (replayed : List LiveObject) × ((begin_attempt played).replay
      ≡ catalog_of played.retained_catalog ++ replayed)
    × ((begin_attempt played).retained ≡ [])
    × (((has_start tracks played.retained ≡ false) × (replayed ≡ played.retained))
        ⊎ FromLastStart tracks played.retained replayed)
begin_attempt-FromLastStart_example = begin_attempt-FromLastStart played (omega arith) (omega arith)

begin_attempt-lost_example :
    ((begin_attempt (begin_attempt played)).replay ≡ catalog_of played.retained_catalog)
    × ((begin_attempt (begin_attempt played)).retained ≡ [])
begin_attempt-lost_example = begin_attempt-lost played (omega arith) (omega arith)
