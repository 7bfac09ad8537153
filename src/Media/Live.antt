-- ===== src/Media/Live.antt =====
-- src/live_media_queue.h, LiveMediaQueue: the bounded queue between a live source and the publisher.
-- Each method holds the lock from its first line to its last, so it is one step of the state. Sets and
-- maps of track names are lists with one entry to a name. Of a fragment the fields that the queue reads
-- are here; durations are numbers of microseconds.
pub mod Push
pub mod Measure
pub mod Bounds
pub mod Recovery
use moqxr.Common.{
  ℕ, zero, suc, ◌+◌, ◌-◌, ◌*◌, ◌/◌, ◌%◌, ◌^◌, ◌≤◌, ◌<◌, ◌≡◌, ◌≢◌, ◌⊎◌, inl, inr, refl, sym, ap, ◌∙◌,
  Bool, true, false, not, ◌&&◌, ◌||◌, Option, none, some, List, [], ◌∷◌, ◌++◌, map, arith, ltb, leb,
  ◌==◌, if◌then◌else◌, length, get_or, take, drop, All, get_or-append, length-append, append-nil,
  append_assoc, Bool-cases, Option-cases, ◌>>=◌,
}
use Prim.Native.Nat.{min, max}
use Prim.Native.String.{String}
use moqxr.Common.{text_key}
use moqxr.Common.Bytes.{add64, sub64, u64_mod}
use moqxr.Common.Assoc.{lookup, insert}
use moqxr.Common.Sets.{member, add, remove}

pub data LiveMediaAdmission : Type 0 where
  accepted shed_to_keyframe no_decodable_boundary : LiveMediaAdmission

pub data LiveMediaFragmentRole : Type 0 where
  media initialization : LiveMediaFragmentRole

pub record PayloadBuffer : Type 0 where
  pub span_size : ℕ
  pub owned_bytes : List ℕ

pub record MediaFragment : Type 0 where
  pub group_id : ℕ
  pub object_id : ℕ
  pub track_name : String
  pub start_time_us : ℕ
  pub duration_us : ℕ
  pub sap_type : ℕ
  pub has_sap_type : Bool
  pub is_video_keyframe : Bool
  pub payload : PayloadBuffer

pub record Entry : Type 0 where
  pub fragment : MediaFragment
  pub role : LiveMediaFragmentRole

pub record LiveMediaQueue : Type 0 where
  pub max_bytes : ℕ
  pub max_media_duration : ℕ
  pub entries : List Entry
  pub video_tracks : List String
  pub awaiting_recovery_keyframe : List String
  -- The boundary's start_time_us.
  pub active_recovery_boundary : Option ℕ
  pub queued_bytes : ℕ
  pub queued_media_duration : ℕ
  pub eof : Bool
  pub resource_limit_exceeded : Bool

pub record QueueBounds : Type 0 where
  pub bytes : ℕ
  pub media_duration : ℕ
  pub bytes_overflow : Bool
  pub media_time_overflow : Bool

unfoldable pub new : ℕ → ℕ → LiveMediaQueue
new max_bytes max_media_duration = record {
  max_bytes = max_bytes;
  max_media_duration = max_media_duration;
  entries = [];
  video_tracks = [];
  awaiting_recovery_keyframe = [];
  active_recovery_boundary = none;
  queued_bytes = 0;
  queued_media_duration = 0;
  eof = false;
  resource_limit_exceeded = false;
}

unfoldable pub fragment_payload_size : MediaFragment → ℕ
fragment_payload_size fragment = elim fragment.payload.owned_bytes [
  | [] ↦ fragment.payload.span_size
  | b ∷ bs ↦ length (b ∷ bs)
]

unfoldable pub is_video_fragment : MediaFragment → Bool
is_video_fragment fragment =
    fragment.is_video_keyframe
    || fragment.has_sap_type && (fragment.sap_type == 0 || fragment.sap_type == 2)

abbrev pub is_media : LiveMediaFragmentRole → Bool
is_media media = true
is_media initialization = false

-- The map video_started; a name that is not in it reads as false.
abbrev pub Started : Type 0
Started = List (String × Bool)

abbrev pub has_started : String → Started → Bool
has_started name started = elim (lookup name started) [ none ↦ false | some b ↦ b ]

-- Whether the entry stays behind a recovery boundary, and the map afterwards.
unfoldable pub should_retain : List String → Entry → ℕ → Started → Bool × Started
should_retain video_tracks entry boundary started =
    let fragment = entry.fragment in
    let name = fragment.track_name in
    if not (is_media entry.role)
    then (true, started)
    else if ltb fragment.start_time_us boundary
    then (false, started)
    else if not (member name video_tracks)
    then (true, started)
    else if not (has_started name started) && not fragment.is_video_keyframe
    then (false, insert name false started)
    else (true, insert name true started)

-- The local variables of `measure`.
pub record Measuring : Type 0 where
  pub bounds : QueueBounds
  pub first_media_time : Option ℕ
  pub last_media_end : ℕ

-- The end of a fragment, held at the largest 64-bit number.
unfoldable pub media_end_overflow : MediaFragment → Bool
media_end_overflow fragment = ltb (u64_mod - 1 - fragment.start_time_us) fragment.duration_us

unfoldable pub media_end : MediaFragment → ℕ
media_end fragment =
    if media_end_overflow fragment
    then u64_mod - 1
    else fragment.start_time_us + fragment.duration_us

abbrev pub first_of : Option ℕ → ℕ → ℕ
first_of none start = start
first_of (some time) start = min time start

-- One round of the loop of `measure`, on an entry that is counted.
unfoldable pub measure_bytes : Entry → QueueBounds → QueueBounds
measure_bytes entry bounds =
    let size = fragment_payload_size entry.fragment in
    if ltb (u64_mod - 1 - bounds.bytes) size
    then record bounds { bytes_overflow = true }
    else record bounds { bytes = bounds.bytes + size }

unfoldable pub measure_entry : Entry → Measuring → Measuring
measure_entry entry m =
    let bounds = measure_bytes entry m.bounds in
    let fragment = entry.fragment in
    if not (is_media entry.role) then record m { bounds = bounds } else record {
      bounds = record bounds {
        media_time_overflow = bounds.media_time_overflow || media_end_overflow fragment;
      };
      first_media_time = some (first_of m.first_media_time fragment.start_time_us);
      last_media_end = max m.last_media_end (media_end fragment);
    }

-- Which entries the loop counts: all of them, or those that a boundary retains.
unfoldable pub counts : List String → Option ℕ → Entry → Started → Bool × Started
counts video_tracks none entry started = (true, started)
counts video_tracks (some boundary) entry started =
    should_retain video_tracks entry boundary started

unfoldable pub measure_loop : List String → Option ℕ → List Entry → Started → Measuring → Measuring
measure_loop video_tracks boundary [] started m = m
measure_loop video_tracks boundary (entry ∷ entries) started m =
    let (counted, started') = counts video_tracks boundary entry started in
    measure_loop video_tracks boundary entries started'
      (if counted then measure_entry entry m else m)

abbrev no_bounds : QueueBounds
no_bounds = record {
  bytes = 0;
  media_duration = 0;
  bytes_overflow = false;
  media_time_overflow = false;
}

abbrev pub unmeasured : Measuring
unmeasured = record { bounds = no_bounds; first_media_time = none; last_media_end = 0 }

-- (std::chrono::microseconds::max)().count()
abbrev max_rep : ℕ
max_rep = 2 ^ 63 - 1

unfoldable pub finish_measure : Measuring → QueueBounds
finish_measure m = elim m.first_media_time [
  | none ↦ m.bounds
  | some first ↦ record m.bounds { media_duration = min (sub64 m.last_media_end first) max_rep }
]

unfoldable pub measure : List String → List Entry → Option ℕ → QueueBounds
measure video_tracks entries boundary =
    finish_measure (measure_loop video_tracks boundary entries [] unmeasured)

unfoldable pub within_limits : LiveMediaQueue → QueueBounds → Bool
within_limits q bounds =
    not bounds.bytes_overflow
    && not bounds.media_time_overflow
    && leb bounds.bytes q.max_bytes
    && leb bounds.media_duration q.max_media_duration

unfoldable pub apply_bounds : LiveMediaQueue → QueueBounds → LiveMediaQueue
apply_bounds q bounds = record q {
  queued_bytes = bounds.bytes;
  queued_media_duration = bounds.media_duration;
}
