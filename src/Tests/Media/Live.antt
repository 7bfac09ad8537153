-- ===== src/Tests/Media/Live.antt =====
-- The live queue on a few fragments of one video track.
use moqxr.Common.{
  ℕ, ◌≤◌, ◌≡◌, refl, Bool, ◌&&◌, ltb, true, false, not, some, List, [], ◌∷◌, arith, All,
}
use Prim.Native.String.{String}
use moqxr.Common.{text_key}
use moqxr.Common.Assoc.{lookup, insert}
use moqxr.Common.Sets.{member}
use moqxr.Media.Live.{
  media, MediaFragment, Entry, LiveMediaQueue, no_decodable_boundary, new, measure, measure_loop,
  finish_measure, within_limits, counts, should_retain, measure_entry, measure_bytes,
  fragment_payload_size, media_end_overflow, media_end,
}
use moqxr.Media.Live.Push.{
  recover, find_recovery, recovery_timestamps, insert_timestamp, admit_entry,
}
use moqxr.Media.Live.Bounds.{Call, pushes, pops, run, run-limits, IsWordCall}
use moqxr.Media.Live.Recovery.{recover-starts}
use moqxr.Media.Live.Recovery.Starts.{IsStart, is_some, first_media}
use moqxr.Media.Live.Recovery.Earliest.{recovery-earliest, has_keyframe, fits_behind}

-- A fragment of ten microseconds.
abbrev fragment_at : ℕ → ℕ → Bool → MediaFragment
fragment_at start size key = record {
  group_id = 0;
  object_id = 0;
  track_name = "video";
  start_time_us = start;
  duration_us = 10;
  sap_type = 1;
  has_sap_type = false;
  is_video_keyframe = key;
  payload = record { span_size = size; owned_bytes = [] };
}

abbrev entry_at : ℕ → ℕ → Bool → Entry
entry_at start size key = record { fragment = fragment_at start size key; role = media }

abbrev pushed : ℕ → ℕ → Bool → Call
pushed start size key = pushes (fragment_at start size key) media

abbrev calls : List Call
calls = pushed 0 8 true ∷ pushed 10 8 true ∷ pushed 20 4 true ∷ pushed 30 1 false ∷ pops ∷ []

calls-AreWords : All IsWordCall calls
calls-AreWords = (
  (omega arith, omega arith),
  (
    (omega arith, omega arith),
    ((omega arith, omega arith), ((omega arith, omega arith), (tt, tt))),
  ),
)

run-limits_example :
    ((run (new 10 100) calls).queued_bytes ≤ 10)
    × ((run (new 10 100) calls).queued_media_duration ≤ 100)
run-limits_example = run-limits 10 100 calls calls-AreWords

abbrev video_queue : LiveMediaQueue
video_queue = record {
  max_bytes = 10;
  max_media_duration = 100;
  entries = [];
  video_tracks = "video" ∷ [];
  awaiting_recovery_keyframe = "video" ∷ [];
  active_recovery_boundary = some 5;
  queued_bytes = 0;
  queued_media_duration = 0;
  eof = false;
  resource_limit_exceeded = false;
}

abbrev three_keys : List Entry
three_keys = entry_at 0 8 true ∷ entry_at 10 8 true ∷ entry_at 20 4 true ∷ []

video_test : member {A = String} "video" ("video" ∷ []) ≡ true
unfolding member
video_test = refl

recover-starts_example :
    IsStart (first_media "video" (recover video_queue three_keys 10).entries)
    × (member {A = String} "video" (recover video_queue three_keys 10).awaiting_recovery_keyframe
        ≡ not (is_some (first_media "video" (recover video_queue three_keys 10).entries)))
recover-starts_example = recover-starts video_queue three_keys 10 "video" video_test

earliest_test : find_recovery video_queue three_keys (recovery_timestamps three_keys []) ≡ some 20
unfolding find_recovery recovery_timestamps insert_timestamp media_end insert measure measure_loop
    finish_measure within_limits counts should_retain member lookup measure_entry measure_bytes
    fragment_payload_size media_end_overflow
earliest_test = refl

-- The keyframe at 10 is earlier, and the queue does not fit behind it.
earlier_key_test : (ltb 10 20 && has_keyframe 10 three_keys) ≡ true
unfolding has_keyframe
earlier_key_test = refl

recovery-earliest_example :
    (has_keyframe 20 three_keys ≡ true)
    × (fits_behind video_queue three_keys 20 ≡ true)
    × ((ltb 10 20 && has_keyframe 10 three_keys && fits_behind video_queue three_keys 10) ≡ false)
recovery-earliest_example = recovery-earliest video_queue three_keys 20 10 earliest_test

lost_test : (admit_entry video_queue (entry_at 5 11 true)).0 ≡ no_decodable_boundary
unfolding admit_entry find_recovery recovery_timestamps insert_timestamp measure measure_loop
    finish_measure within_limits counts should_retain member lookup measure_entry measure_bytes
    fragment_payload_size media_end_overflow
lost_test = refl

lone_key_test : has_keyframe 5 (entry_at 5 11 true ∷ []) ≡ true
unfolding has_keyframe
lone_key_test = refl
