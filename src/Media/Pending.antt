-- ===== src/Media/Pending.antt =====
-- src/transport/pending_media_queue.h, PendingMediaQueue: bounded bytes waiting for the network, one
-- FIFO of writes to a stream. `streams` is the unordered map, one entry to a stream; a point in time is
-- a number of clock ticks. Running out of memory is not modelled.
pub mod Invariant
pub mod Contents
pub mod Runs
use moqxr.Common.{
  ℕ, zero, suc, ◌+◌, ◌-◌, ◌*◌, ◌/◌, ◌%◌, ◌^◌, ◌≤◌, ◌<◌, ◌≡◌, ◌≢◌, ◌⊎◌, inl, inr, refl, sym, ap, ◌∙◌,
  Bool, true, false, not, ◌&&◌, ◌||◌, Option, none, some, List, [], ◌∷◌, ◌++◌, map, arith, ltb, leb,
  ◌==◌, if◌then◌else◌, length, get_or, take, drop, All, get_or-append, length-append, append-nil,
  append_assoc, Bool-cases, Option-cases, ◌>>=◌,
}
use moqxr.Common.Bytes.{add64, sub64}
use moqxr.Common.{nat_eq}
use moqxr.Common.Assoc.{lookup, insert, erase}

pub data MediaAdmission : Type 0 where
  accepted would_block oversized : MediaAdmission

pub record PendingMediaWrite : Type 0 where
  pub stream_id : ℕ
  pub bytes : List ℕ
  pub offset : ℕ
  pub fin : Bool
  pub transport_priority : ℕ
  pub object_deadline : Option ℕ
  pub subgroup_deadline : Option ℕ

pub data PendingMediaFrontStatus : Type 0 where
  available empty expired : PendingMediaFrontStatus

pub record PendingMediaFront : Type 0 where
  pub status : PendingMediaFrontStatus
  pub write : Option PendingMediaWrite

pub record PendingMediaQueue : Type 0 where
  pub capacity : ℕ
  pub queued_bytes : ℕ
  pub streams : List (ℕ × List PendingMediaWrite)

unfoldable pub new : ℕ → PendingMediaQueue
new capacity = record { capacity = capacity; queued_bytes = 0; streams = [] }

unfoldable pub remaining_bytes : PendingMediaWrite → ℕ
remaining_bytes write =
    if leb (length write.bytes) write.offset then 0 else length write.bytes - write.offset

-- deadline.has_value() && now >= *deadline
abbrev is_past : Option ℕ → ℕ → Bool
is_past none now = false
is_past (some deadline) now = leb deadline now

unfoldable pub is_expired : PendingMediaWrite → ℕ → Bool
is_expired write now = is_past write.object_deadline now || is_past write.subgroup_deadline now

-- `streams_[stream_id]`, an empty deque where there is none.
abbrev pub writes_of : Option (List PendingMediaWrite) → List PendingMediaWrite
writes_of none = []
writes_of (some writes) = writes

unfoldable pub try_push : PendingMediaQueue → PendingMediaWrite → MediaAdmission × PendingMediaQueue
try_push q write =
    if ltb q.capacity (length write.bytes)
    then (oversized, q)
    else if ltb (sub64 q.capacity q.queued_bytes) (length write.bytes)
    then (would_block, q)
    else let writes = writes_of (lookup write.stream_id q.streams) in
      (
        accepted,
        record q {
          streams = insert write.stream_id (writes ++ record write { offset = 0 } ∷ []) q.streams;
          queued_bytes = add64 q.queued_bytes (length write.bytes);
        },
      )

-- The bytes of a deque that are not sent, as clear_stream sums them.
unfoldable pub remaining_of : List PendingMediaWrite → ℕ
remaining_of [] = 0
remaining_of (write ∷ writes) = remaining_bytes write + remaining_of writes

unfoldable pub clear_stream : PendingMediaQueue → ℕ → ℕ × PendingMediaQueue
clear_stream q stream_id = elim (lookup stream_id q.streams) [
  | none ↦ (0, q)
  | some writes ↦
      let removed = remaining_of writes in
      (
        removed,
        record q {
          queued_bytes = sub64 q.queued_bytes removed;
          streams = erase stream_id q.streams;
        },
      )
]

unfoldable pub clear_connection : PendingMediaQueue → ℕ × PendingMediaQueue
clear_connection q = (q.queued_bytes, record q { streams = []; queued_bytes = 0 })

unfoldable pub clear : PendingMediaQueue → ℕ × PendingMediaQueue
clear q = clear_connection q

abbrev front_of : PendingMediaFrontStatus → Option PendingMediaWrite → PendingMediaFront
front_of status write = record { status = status; write = write }

-- The part of inspect_front that has found the stream.
unfoldable pub inspect_writes :
    PendingMediaQueue → ℕ → ℕ → List PendingMediaWrite → PendingMediaFront × PendingMediaQueue
inspect_writes q stream_id now [] =
    (front_of empty none, record q { streams = erase stream_id q.streams })
inspect_writes q stream_id now (write ∷ writes) =
    if write.offset == 0 && is_expired write now
    then (front_of expired none, (clear_stream q stream_id).1)
    else (front_of available (some write), q)

unfoldable pub inspect_front : PendingMediaQueue → ℕ → ℕ → PendingMediaFront × PendingMediaQueue
inspect_front q stream_id now = elim (lookup stream_id q.streams) [
  | none ↦ (front_of empty none, q)
  | some writes ↦ inspect_writes q stream_id now writes
]

unfoldable pub front : PendingMediaQueue → ℕ → ℕ → Option PendingMediaWrite × PendingMediaQueue
front q stream_id now = let (found, q') = inspect_front q stream_id now in (found.write, q')

-- The stream after its deque has changed: an empty deque leaves the map.
abbrev pub put_writes :
    ℕ
    → List PendingMediaWrite
    → List (ℕ × List PendingMediaWrite)
    → List (ℕ × List PendingMediaWrite)
put_writes stream_id [] streams = erase stream_id streams
put_writes stream_id (write ∷ writes) streams = insert stream_id (write ∷ writes) streams

unfoldable pub consumed_of : PendingMediaWrite → ℕ → ℕ
consumed_of write bytes =
    let remaining = remaining_bytes write in if ltb bytes remaining then bytes else remaining

-- The deque after `consumed` bytes of its first write have been taken.
unfoldable pub advance : PendingMediaWrite → List PendingMediaWrite → ℕ → List PendingMediaWrite
advance write writes consumed =
    if (write.offset + consumed) == length write.bytes
    then writes
    else record write { offset = write.offset + consumed } ∷ writes

-- The part of consume that has found a write at the front.
unfoldable pub consume_front :
    PendingMediaQueue → ℕ → ℕ → PendingMediaWrite → List PendingMediaWrite → ℕ × PendingMediaQueue
consume_front q stream_id bytes write writes =
    if bytes == 0
    then if not (length write.bytes == 0) || not write.fin
      then (0, q)
      else (0, record q { streams = put_writes stream_id writes q.streams })
    else let consumed = consumed_of write bytes in
      (
        consumed,
        record q {
          queued_bytes = sub64 q.queued_bytes consumed;
          streams = put_writes stream_id (advance write writes consumed) q.streams;
        },
      )

unfoldable pub consume : PendingMediaQueue → ℕ → ℕ → ℕ × PendingMediaQueue
consume q stream_id bytes = elim (lookup stream_id q.streams) [
  | none ↦ (0, q)
  | some [] ↦ (0, q)
  | some (write ∷ writes) ↦ consume_front q stream_id bytes write writes
]
