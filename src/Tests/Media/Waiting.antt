-- ===== src/Tests/Media/Waiting.antt =====
-- The pending queue and the deadlines on a few writes.
use moqxr.Common.{
  ℕ, ◌+◌, ◌≤◌, ◌≡◌, true, false, ◌&&◌, none, some, List, [], ◌∷◌, ◌++◌, arith, ltb, if◌then◌else◌,
  drop,
}
use moqxr.Common.{nat_eq}
use moqxr.Common.Assoc.{total}
use moqxr.Media.Pending.{
  PendingMediaWrite, PendingMediaQueue, accepted, would_block, oversized, new, remaining_of,
  try_push, consume, inspect_front,
}
use moqxr.Media.Pending.Invariant.{IsValid}
use moqxr.Media.Pending.Contents.{
  contents, has_room, Answers, try_push-contents, consume-contents, inspect_front-Answers,
}
use moqxr.Media.Pending.Runs.{Call, pushes, consumes, run, run_pending-IsValid}
use moqxr.Media.Deadlines.{Deadlines, take_expired}
use moqxr.Media.Deadlines.Laws.{IsSorted, deadline_of, gives_up, take_expired_lem}

abbrev write_of : ℕ → List ℕ → PendingMediaWrite
write_of id bytes = record {
  stream_id = id;
  bytes = bytes;
  offset = 0;
  fin = false;
  transport_priority = 128;
  object_deadline = some 50;
  subgroup_deadline = none;
}

abbrev calls : List Call
calls =
    pushes (write_of 1 (10 ∷ 11 ∷ 12 ∷ [])) ∷ pushes (write_of 2 (20 ∷ 21 ∷ [])) ∷ consumes 1 2 ∷ []

abbrev queue : PendingMediaQueue
queue = run (new 8) calls

run_pending-IsValid_example :
    (queue.queued_bytes ≡ total remaining_of queue.streams)
    × (queue.queued_bytes ≤ 8)
    × IsValid queue
run_pending-IsValid_example = run_pending-IsValid 8 calls (omega arith)

queue-IsValid : IsValid queue
queue-IsValid = (run_pending-IsValid 8 calls (omega arith)).2

try_push-contents_example :
    ((try_push queue (write_of 1 (13 ∷ []))).0 ≡ (
      if has_room queue (write_of 1 (13 ∷ []))
      then accepted
      else if ltb queue.capacity 1
      then oversized
      else would_block))
    × (contents (try_push queue (write_of 1 (13 ∷ []))).1 1 ≡ (
        if has_room queue (write_of 1 (13 ∷ [])) && true
        then contents queue 1 ++ 13 ∷ []
        else contents queue 1))
try_push-contents_example = try_push-contents queue (write_of 1 (13 ∷ [])) 1 queue-IsValid

consume-contents_example :
    (contents (consume queue 1 5).1 1 ≡ drop (consume queue 1 5).0 (contents queue 1))
    × ((consume queue 1 5).0 ≤ 5)
    × ((consume queue 1 5).1.queued_bytes + (consume queue 1 5).0 ≡ queue.queued_bytes)
consume-contents_example = consume-contents queue 1 5 1 queue-IsValid

inspect_front-Answers_example : Answers queue 2 60 (inspect_front queue 2 60)
inspect_front-Answers_example = inspect_front-Answers queue 2 60 queue-IsValid

abbrev armed : Deadlines
armed = (1, 100) ∷ (4, 200) ∷ []

armed-IsSorted : IsSorted armed
armed-IsSorted = (omega arith, (omega arith, tt))

take_expired_example :
    IsSorted (take_expired 150 armed).1
    × (gives_up 1 (take_expired 150 armed).0 ≡ true)
    × (deadline_of 1 (take_expired 150 armed).1 ≡ none)
unfolding deadline_of
take_expired_example = take_expired_lem 150 1 armed armed-IsSorted
