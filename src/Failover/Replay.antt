-- ===== src/Failover/Replay.antt =====
-- src/endpoint_failover.cpp, ReplayableLiveObjectSource: the live source that keeps the objects of an
-- attempt, so that the next attempt starts with them. The source behind it is outside: what it answers
-- is an argument of next_object. Of an object the fields that are read here, and its payload.
pub mod Bounds
pub mod Resumes
use moqxr.Common.{
  ℕ, zero, suc, ◌+◌, ◌-◌, ◌*◌, ◌/◌, ◌%◌, ◌^◌, ◌≤◌, ◌<◌, ◌≡◌, ◌≢◌, ◌⊎◌, inl, inr, refl, sym, ap, ◌∙◌,
  subst, Bool, true, false, not, ◌&&◌, ◌||◌, Option, none, some, List, [], ◌∷◌, ◌++◌, map, arith,
  ltb, leb, ◌==◌, if◌then◌else◌, length, get_or, take, drop, All, get_or-append, length-append,
  append-nil, append_assoc, Bool-cases, Option-cases, ◌>>=◌,
}
use Prim.Native.String.{String}
use moqxr.Common.{text_key}
use moqxr.Common.Bytes.{add64}

pub record LiveObject : Type 0 where
  pub track_name : String
  pub group_id : ℕ
  pub object_id : ℕ
  pub payload : List ℕ

-- The tracks of the source, each with its name and whether its media type is video.
pub record ReplayableLiveObjectSource : Type 0 where
  pub tracks : List (String × Bool)
  pub max_buffered_objects : ℕ
  pub attempt_count : ℕ
  pub retained_catalog : Option LiveObject
  pub retained : List LiveObject
  pub replay : List LiveObject

unfoldable pub new : List (String × Bool) → ℕ → ReplayableLiveObjectSource
new tracks max_buffered_objects = record {
  tracks = tracks;
  max_buffered_objects = if max_buffered_objects == 0 then 1 else max_buffered_objects;
  attempt_count = 0;
  retained_catalog = none;
  retained = [];
  replay = [];
}

unfoldable pub is_video_track : List (String × Bool) → String → Bool
is_video_track [] track_name = false
is_video_track ((name, video) ∷ tracks) track_name =
    if text_key.beq name track_name then video else is_video_track tracks track_name

-- The object at which a video track starts over.
unfoldable pub starts_video : List (String × Bool) → LiveObject → Bool
starts_video tracks object = is_video_track tracks object.track_name && (object.object_id == 0)

-- The retained objects from the last start of a video track on, or all of them: the loop that moves
-- replay_begin, and the one that copies.
unfoldable pub replay_from :
    List (String × Bool) → List LiveObject → List LiveObject → List LiveObject
replay_from tracks begin [] = begin
replay_from tracks begin (object ∷ objects) =
    replay_from tracks (if starts_video tracks object then object ∷ objects else begin) objects

abbrev pub catalog_of : Option LiveObject → List LiveObject
catalog_of none = []
catalog_of (some catalog) = catalog ∷ []

unfoldable pub begin_attempt : ReplayableLiveObjectSource → ReplayableLiveObjectSource
begin_attempt s =
    let attempt_count = add64 s.attempt_count 1 in
    if attempt_count == 1
    then record s { attempt_count = attempt_count; replay = [] }
    else record s {
      attempt_count = attempt_count;
      replay = catalog_of s.retained_catalog ++ replay_from s.tracks s.retained s.retained;
      retained = [];
    }

-- while (retained_.size() > max_buffered_objects_) retained_.pop_front()
unfoldable pub pop_excess : ℕ → List LiveObject → List LiveObject
pop_excess limit [] = []
pop_excess limit (object ∷ objects) =
    if ltb limit (length (object ∷ objects)) then pop_excess limit objects else object ∷ objects

unfoldable pub retain : ReplayableLiveObjectSource → LiveObject → ReplayableLiveObjectSource
retain s object = record s {
  retained = pop_excess s.max_buffered_objects (s.retained ++ object ∷ []);
}

abbrev pub is_catalog : LiveObject → Bool
is_catalog object = text_key.beq object.track_name "catalog"

-- The part of next_object that asks the source; `answer` is what the source gives.
unfoldable pub take_source :
    ReplayableLiveObjectSource → Option LiveObject → Option LiveObject × ReplayableLiveObjectSource
take_source s none = (none, s)
take_source s (some object) = (
  some object,
  if is_catalog object then record s { retained_catalog = some object } else retain s object,
)

-- next_object, with the replay as an argument.
unfoldable pub take_replay :
    ReplayableLiveObjectSource
    → List LiveObject
    → Option LiveObject
    → Option LiveObject × ReplayableLiveObjectSource
take_replay s [] answer = take_source s answer
take_replay s (object ∷ replay) answer =
    let rest = record s { replay = replay } in
    (some object, if not (is_catalog object) then retain rest object else rest)

unfoldable pub next_object :
    ReplayableLiveObjectSource → Option LiveObject → Option LiveObject × ReplayableLiveObjectSource
next_object s answer = take_replay s s.replay answer

-- is_finished, given what the source answers.
unfoldable pub is_finished : ReplayableLiveObjectSource → Bool → Bool
is_finished s source_finished = elim s.replay [ [] ↦ source_finished | object ∷ objects ↦ false ]

unfoldable pub buffered_objects : ReplayableLiveObjectSource → ℕ
buffered_objects s = length s.retained + length s.replay
