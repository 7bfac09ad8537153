-- ===== src/Transport/CloseDrain/Drained.antt =====
-- close_drain_should_wait (src/transport/picoquic_close_drain.h) against the streams themselves.
use moqxr.Common.{
  ℕ, ◌+◌, ◌-◌, ◌^◌, ◌≤◌, ◌<◌, ◌≡◌, refl, Bool, true, not, ◌&&◌, ◌||◌, some, List, [], ◌∷◌, arith,
  ltb, leb, ◌==◌, if◌then◌else◌, length, All,
}
use moqxr.Common.Bytes.{add64, sub64}
use moqxr.Transport.CloseDrain.{
  StreamHead, CloseDrainState, queued_end, has_pending_fin, drained, inspect_streams,
  inspect_close_drain, close_drain_should_wait,
}

-- All that the queue holds has been sent.
nodes_sent : ℕ → List (ℕ × ℕ) → Bool
nodes_sent sent [] = true
nodes_sent sent ((offset, size) ∷ nodes) = leb (offset + size) sent && nodes_sent sent nodes

pub all_sent : List StreamHead → Bool
all_sent [] = true
all_sent (stream ∷ streams) =
    (nodes_sent stream.sent_offset stream.send_queue && not (has_pending_fin stream))
    && all_sent streams

-- The bytes that are not sent, and the streams that are not finished, counted without a bound.
unfoldable pub unsent_of : List StreamHead → ℕ
unsent_of [] = 0
unsent_of (stream ∷ streams) =
    (queued_end stream.sent_offset stream.send_queue - stream.sent_offset) + unsent_of streams

pending_of : List StreamHead → ℕ
pending_of [] = 0
pending_of (stream ∷ streams) = (if has_pending_fin stream then 1 else 0) + pending_of streams

-- The ends of the queued nodes are stream offsets, which are less than 2^62.
abbrev NodesFit : List (ℕ × ℕ) → Type 0
NodesFit [] = Unit {0}
NodesFit ((offset, size) ∷ nodes) = (offset + size < 2 ^ 62) × NodesFit nodes

-- The streams of a connection: their offsets are less than 2^62.
pub record StreamFits (stream : StreamHead) : Type 0 where
  pub sent : stream.sent_offset < 2 ^ 62
  pub nodes : NodesFit stream.send_queue

queued_end-law :
    (sent end : ℕ) (nodes : List (ℕ × ℕ))
    → sent ≤ end
    → NodesFit nodes
    → (end ≤ queued_end end nodes)
      × (((queued_end end nodes - sent) == 0) ≡ ((end == sent) && nodes_sent sent nodes))
unfolding queued_end nodes_sent
queued_end-law sent end [] h f = ground arith
queued_end-law sent end ((offset, size) ∷ nodes) h f =
    ground (arith, queued_end-law sent end nodes, queued_end-law sent (offset + size) nodes)

unsent-sent :
    (streams : List StreamHead)
    → All StreamFits streams
    → ((unsent_of streams == 0) && (pending_of streams == 0)) ≡ all_sent streams
unfolding unsent_of pending_of all_sent
unsent-sent [] f = refl
unsent-sent (stream ∷ streams) f = ground (
  arith,
  queued_end-law stream.sent_offset stream.sent_offset stream.send_queue,
  f.0.nodes,
  unsent-sent streams f.1,
)

pending-le : (streams : List StreamHead) → pending_of streams ≤ length streams
unfolding pending_of
pending-le [] = omega arith
pending-le (stream ∷ streams) = ground (arith, pending-le streams)

queued-word :
    (end : ℕ) (nodes : List (ℕ × ℕ)) → end < 2 ^ 62 → NodesFit nodes → queued_end end nodes < 2 ^ 62
unfolding queued_end
queued-word end [] h f = h
queued-word end ((offset, size) ∷ nodes) h f =
    ground (arith, queued-word end nodes, queued-word (offset + size) nodes)

inspect-counts :
    (streams : List StreamHead) (state : CloseDrainState)
    → All StreamFits streams
    → state.unsent_bytes + unsent_of streams < 2 ^ 64
    → state.pending_fin_streams + length streams < 2 ^ 64
    → ((inspect_streams streams state).unsent_bytes ≡ state.unsent_bytes + unsent_of streams)
      × ((inspect_streams streams state).pending_fin_streams
          ≡ state.pending_fin_streams + pending_of streams)
unfolding inspect_streams unsent_of pending_of
inspect-counts [] state f small few = ground arith
inspect-counts (stream ∷ streams) state f small few =
    let end = queued_end stream.sent_offset stream.send_queue in
    let next : CloseDrainState = record state {
      unsent_bytes = add64 state.unsent_bytes (sub64 end stream.sent_offset);
      pending_fin_streams =
          if has_pending_fin stream
          then add64 state.pending_fin_streams 1
          else state.pending_fin_streams;
    } in
    ground (
      arith,
      f.0.sent,
      queued-word stream.sent_offset stream.send_queue f.0.sent f.0.nodes,
      queued_end-law stream.sent_offset stream.sent_offset stream.send_queue,
      f.0.nodes,
      inspect-counts streams next f.1,
    )

module _ (streams : List StreamHead) (fit : All StreamFits streams)
    (small : unsent_of streams < 2 ^ 64) (few : length streams < 2 ^ 64) where
  -- With counts that fit 64 bits, the send side is reported as drained exactly when all that is queued on
  -- every stream has been sent, no stream waits for its end or its reset, and the backlog is empty.
  pub drained-all_sent :
      (backlog_empty : Bool)
      → drained (inspect_close_drain (some (streams, backlog_empty)))
        ≡ (all_sent streams && backlog_empty)
  unfolding drained inspect_close_drain
  drained-all_sent backlog_empty = ground (
    arith,
    inspect-counts streams
        (record { unsent_bytes = 0; pending_fin_streams = 0; backlog_empty = true }) fit
        (omega (arith, small)) (omega (arith, few)),
    unsent-sent streams fit,
  )

  -- Under the same condition, a close waits exactly while its deadline has not passed and the client
  -- has writes left or the send side is not drained; and the warning is marked as given exactly when
  -- it was before or the deadline has passed on data that is not delivered.
  pub should_wait-all_sent :
      (backlog_empty : Bool) (queued_writes deadline now : ℕ) (timeout_logged : Bool)
      → let done = (queued_writes == 0) && (all_sent streams && backlog_empty) in
        close_drain_should_wait
          (some (streams, backlog_empty))
          queued_writes
          deadline
          now
          timeout_logged
        ≡ (not done && ltb now deadline, timeout_logged || (not done && not (ltb now deadline)))
  unfolding close_drain_should_wait
  should_wait-all_sent backlog_empty queued_writes deadline now timeout_logged =
      ground (arith, drained-all_sent backlog_empty)
