-- ===== src/Transport/CloseDrain.antt =====
-- src/transport/picoquic_close_drain.h: how long a close waits for the send side. Of picoquic's streams
-- the fields that the code reads are here; a point in time is a number of milliseconds, and a
-- duration that is not positive is 0.
pub mod Drained
pub mod Bound
use moqxr.Common.{
  ℕ, zero, suc, ◌+◌, ◌-◌, ◌*◌, ◌/◌, ◌%◌, ◌^◌, ◌≤◌, ◌<◌, ◌≡◌, ◌≢◌, ◌⊎◌, inl, inr, refl, sym, ap, ◌∙◌,
  subst, Bool, true, false, not, ◌&&◌, ◌||◌, Option, none, some, List, [], ◌∷◌, ◌++◌, map, arith,
  ltb, leb, ◌==◌, if◌then◌else◌, length, get_or, take, drop, All, get_or-append, length-append,
  append-nil, append_assoc, Bool-cases, Option-cases, ◌>>=◌,
}
use Prim.Native.Nat.{min, max}
use moqxr.Common.Bytes.{IsU64, u64_mod, add64, sub64}

-- kDefaultCloseDrainTimeout and kMaxCloseDrainTimeout
abbrev pub default_close_drain_timeout : ℕ
default_close_drain_timeout = 10000

abbrev pub max_close_drain_timeout : ℕ
max_close_drain_timeout = 30000

pub record CloseDrainState : Type 0 where
  pub unsent_bytes : ℕ
  pub pending_fin_streams : ℕ
  pub backlog_empty : Bool

unfoldable pub drained : CloseDrainState → Bool
drained state = (state.unsent_bytes == 0) && (state.pending_fin_streams == 0) && state.backlog_empty

-- A stream of picoquic: its nodes are the offset and the length of what is queued.
pub record StreamHead : Type 0 where
  pub sent_offset : ℕ
  pub send_queue : List (ℕ × ℕ)
  pub fin_requested : Bool
  pub fin_sent : Bool
  pub reset_requested : Bool
  pub reset_sent : Bool

unfoldable pub queued_end : ℕ → List (ℕ × ℕ) → ℕ
queued_end end [] = end
queued_end end ((offset, length) ∷ nodes) =
    let node_end = add64 offset length in
    queued_end (if ltb end node_end then node_end else end) nodes

unfoldable pub has_pending_fin : StreamHead → Bool
has_pending_fin stream =
    (stream.fin_requested && not stream.fin_sent)
    || (stream.reset_requested && not stream.reset_sent)

unfoldable pub inspect_streams : List StreamHead → CloseDrainState → CloseDrainState
inspect_streams [] state = state
inspect_streams (stream ∷ streams) state = inspect_streams streams (record state {
  unsent_bytes =
      add64 state.unsent_bytes
        (sub64 (queued_end stream.sent_offset stream.send_queue) stream.sent_offset);
  pending_fin_streams =
      if has_pending_fin stream
      then add64 state.pending_fin_streams 1
      else state.pending_fin_streams;
})

-- The streams and the answer of picoquic_is_cnx_backlog_empty; `none` is a null connection.
unfoldable pub inspect_close_drain : Option (List StreamHead × Bool) → CloseDrainState
inspect_close_drain none = record {
  unsent_bytes = 0;
  pending_fin_streams = 0;
  backlog_empty = true;
}
inspect_close_drain (some (streams, backlog_empty)) =
    let seen =
      inspect_streams streams
        (record { unsent_bytes = 0; pending_fin_streams = 0; backlog_empty = true }) in
    record seen { backlog_empty = backlog_empty }

pub record CloseDrainTracker : Type 0 where
  pub bound : ℕ
  pub bound_negotiated : Bool
  pub deadline : ℕ
  pub timeout_logged : Bool

unfoldable pub reset : CloseDrainTracker
reset = record {
  bound = default_close_drain_timeout;
  bound_negotiated = false;
  deadline = 0;
  timeout_logged = false;
}

unfoldable pub note_delivery_timeout : ℕ → CloseDrainTracker → CloseDrainTracker
note_delivery_timeout timeout tracker =
    if timeout == 0
    then tracker
    else let clamped = min timeout max_close_drain_timeout in
      record tracker {
        bound = if tracker.bound_negotiated then max tracker.bound clamped else clamped;
        bound_negotiated = true;
      }

unfoldable pub arm : ℕ → CloseDrainTracker → CloseDrainTracker
arm now tracker = record tracker { deadline = now + tracker.bound }

-- Whether to wait, and timeout_logged afterwards. `connection` is `none` for a null connection and
-- for one that is disconnecting.
unfoldable pub close_drain_should_wait :
    Option (List StreamHead × Bool) → ℕ → ℕ → ℕ → Bool → Bool × Bool
close_drain_should_wait none queued_writes deadline now timeout_logged = (false, timeout_logged)
close_drain_should_wait (some connection) queued_writes deadline now timeout_logged =
    if (queued_writes == 0) && drained (inspect_close_drain (some connection))
    then (false, timeout_logged)
    else if ltb now deadline
    then (true, timeout_logged)
    else (false, true)
