-- ===== src/Media/Pending/Runs.antt =====
-- Sequences of calls on PendingMediaQueue (src/transport/pending_media_queue.h).
use moqxr.Common.{nat_eq, ℕ, ◌≤◌, ◌≡◌, refl, subst, ◌∙◌, arith, List, [], ◌∷◌}
use moqxr.Common.Bytes.{IsU64}
use moqxr.Common.Assoc.{total}
use moqxr.Media.Pending.{
  PendingMediaWrite, PendingMediaQueue, new, remaining_of, try_push, clear_stream, clear_connection,
  inspect_front, consume, consume_front, inspect_writes,
}
use moqxr.Media.Pending.Invariant.{
  IsValid, new-IsValid, try_push-IsValid, clear_stream-IsValid, clear_connection-IsValid,
  inspect_front-IsValid, consume-IsValid,
}

-- The calls that change a queue.
pub data Call : Type 0 where
  pushes : PendingMediaWrite → Call
  clears : (stream_id : ℕ) → Call
  clears_all : Call
  inspects : (stream_id now : ℕ) → Call
  consumes : (stream_id bytes : ℕ) → Call

pub step : PendingMediaQueue → Call → PendingMediaQueue
step q (pushes write) = (try_push q write).1
step q (clears stream_id) = (clear_stream q stream_id).1
step q clears_all = (clear_connection q).1
step q (inspects stream_id now) = (inspect_front q stream_id now).1
step q (consumes stream_id bytes) = (consume q stream_id bytes).1

pub run : PendingMediaQueue → List Call → PendingMediaQueue
run q [] = q
run q (c ∷ cs) = run (step q c) cs

step-IsValid : (q : PendingMediaQueue) (c : Call) → IsValid q → IsValid (step q c)
unfolding step
step-IsValid q (pushes write) v = try_push-IsValid q write v
step-IsValid q (clears stream_id) v = clear_stream-IsValid q stream_id v
step-IsValid q clears_all v = clear_connection-IsValid q v
step-IsValid q (inspects stream_id now) v = inspect_front-IsValid q stream_id now v
step-IsValid q (consumes stream_id bytes) v = consume-IsValid q stream_id bytes v

run-IsValid : (q : PendingMediaQueue) (cs : List Call) → IsValid q → IsValid (run q cs)
unfolding run
run-IsValid q [] v = v
run-IsValid q (c ∷ cs) v = run-IsValid (step q c) cs (step-IsValid q c v)

capacity-new : (capacity : ℕ) → (new capacity).capacity ≡ capacity
unfolding new
capacity-new capacity = refl

step-capacity : (q : PendingMediaQueue) (c : Call) → (step q c).capacity ≡ q.capacity
unfolding step try_push clear_stream clear_connection inspect_front inspect_writes consume
    consume_front
step-capacity q (pushes write) = ground arith
step-capacity q (clears stream_id) = ground arith
step-capacity q clears_all = ground arith
step-capacity q (inspects stream_id now) = ground arith
step-capacity q (consumes stream_id bytes) = ground arith

run-capacity : (q : PendingMediaQueue) (cs : List Call) → (run q cs).capacity ≡ q.capacity
unfolding run
run-capacity q [] = refl
run-capacity q (c ∷ cs) = run-capacity (step q c) cs ∙ step-capacity q c

-- After any calls on a new pending queue whose capacity is a 64-bit number, the queued count is the
-- number of unsent bytes of all streams, it is within that capacity, and the rest of the invariant
-- holds: each stream stands once in the map, with a first write, and each write has bytes that are
-- still to be sent or has no bytes at all.
pub run_pending-IsValid :
    (capacity : ℕ) (cs : List Call)
    → IsU64 capacity
    → ((run (new capacity) cs).queued_bytes ≡ total remaining_of (run (new capacity) cs).streams)
      × ((run (new capacity) cs).queued_bytes ≤ capacity)
      × IsValid (run (new capacity) cs)
run_pending-IsValid capacity cs word =
    let q = run (new capacity) cs in
    let v : IsValid q = run-IsValid (new capacity) cs (new-IsValid capacity word) in
    (
      v.counted,
      subst (◌≤◌ q.queued_bytes) (run-capacity (new capacity) cs ∙ capacity-new capacity) v.bounded,
      v,
    )
