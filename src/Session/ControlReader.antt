-- ===== src/Session/ControlReader.antt =====
-- SessionControlReader of src/transport/moqt_session.cpp. What the transport's read_stream answers is
-- a list, and nothing is there behind its end. The fault is the one that the decoders of the thread
-- have recorded.
pub mod Drains
pub mod Polls
use Prim.Native.String.{String}
use moqxr.Common.{
  ℕ, zero, suc, Bool, true, false, not, ◌&&◌, ◌||◌, Option, none, some, List, [], ◌∷◌, ◌++◌, ◌==◌,
  if◌then◌else◌, take, drop,
}
use moqxr.Draft.{DraftVersion, is_draft22_or_later, is_draft23_or_later}
use moqxr.Failover.{TransportStatus, failure, retryable}
use moqxr.Session.Drafts.{decode_moqint}
use moqxr.Wire.Control.{next_control_message}
use moqxr.Wire.Notices.{GoawayMessage, decode_goaway_message}
use moqxr.Session.Violations.{
  Reply, goes_on, success, session_violation, protocol_violation, check_control_message_length,
  unexpected_message_error_code, closed_control_stream_error_code,
}

pub data Read : Type 0 where
  chunk : (bytes : List ℕ) (fin : Bool) → Read
  -- a status for which no_stream_data holds
  no_data : Read
  -- any other status that is not ok
  fails : TransportStatus → Read

-- The reader, the bytes that wait, and the recorded fault.
pub record Reading : Type 0 where
  pub goaway : Option GoawayMessage
  pub pending : List ℕ
  pub fault : ℕ

-- How the loop over the messages ends: by a return, or with no whole message left.
pub data Drained : Type 0 where
  returns : Reply → Reading → Drained
  waits : Reading → Drained
  out_of_fuel : Drained

unfoldable pub is_goaway : List ℕ → DraftVersion → Bool
is_goaway bytes draft = elim (decode_moqint bytes 0 draft) [
  | none ↦ false
  | some (type, offset) ↦ type == 0x10
]

abbrev is_held : Option GoawayMessage → Bool
is_held none = false
is_held (some message) = true

abbrev keep_goaway :
    DraftVersion → ℕ → Reading → (Reading → Drained) → Option GoawayMessage × ℕ → Drained
keep_goaway draft size r again (none, fault) =
    returns (protocol_violation fault "invalid control GOAWAY") (record r { fault = 0 })
keep_goaway draft size r again (some message, fault) =
    again (record { goaway = some message; pending = drop size r.pending; fault = fault })

-- The fault that is left behind session_violation, which takes it before draft 23.
abbrev violated : DraftVersion → Reading → Reading
violated draft r = record r { fault = if is_draft23_or_later draft then r.fault else 0 }

-- One message at the front of the bytes that wait.
unfoldable pub take_message : DraftVersion → ℕ → Reading → (Reading → Drained) → Drained
take_message draft size r again =
    let bytes = take size r.pending in
    if not (is_goaway bytes draft)
    then returns
        (session_violation draft r.fault unexpected_message_error_code
          "unknown or misplaced control-stream message")
        (violated draft r)
    else if is_held r.goaway
    then returns
        (session_violation draft r.fault unexpected_message_error_code "duplicate control GOAWAY")
        (violated draft r)
    else keep_goaway draft size r again (decode_goaway_message bytes draft)

unfoldable pub drain : ℕ → DraftVersion → Reading → Drained
drain zero draft r = out_of_fuel
drain (suc fuel) draft r = elim (next_control_message r.pending draft) [
  | none ↦ waits r
  | some size ↦ take_message draft size r (drain fuel draft)
]

-- Two rounds are enough: the first may take a GOAWAY, and no other is taken.
abbrev pub drain_rounds : ℕ
drain_rounds = 2

-- The lines behind the loop.
abbrev pub migrates : Option GoawayMessage → Reply
migrates none = goes_on
migrates (some message) = record {
  closes = [];
  status = record (failure "session migration requested" retryable) {
    migration_uri = some message.new_session_uri;
    migration_timeout_ms = some message.timeout_ms;
  };
}

abbrev poll_end : Reading → Option (Reply × Reading)
poll_end r = some (migrates r.goaway, r)

abbrev is_nil : List ℕ → Bool
is_nil [] = true
is_nil (b ∷ bytes) = false

-- What read_stream brings, and the rounds behind it.
abbrev poll_read :
    DraftVersion → Reading → Read → (Reading → Option (Reply × Reading)) → Option (Reply × Reading)
poll_read draft r (chunk bytes fin) again =
    let r' : Reading = record r { pending = r.pending ++ bytes } in
    if fin
    then some (
      session_violation draft r.fault closed_control_stream_error_code
          "unexpected control-stream FIN",
      violated draft r',
    )
    else if is_nil bytes
    then poll_end r'
    else again r'
poll_read draft r no_data again = poll_end r
poll_read draft r (fails status) again =
    some (record { closes = []; status = record status { ok = false } }, r)

abbrev poll_drained : Drained → (Reading → Option (Reply × Reading)) → Option (Reply × Reading)
poll_drained (returns reply r) next = some (reply, r)
poll_drained (waits r) next = next r
poll_drained out_of_fuel next = none

-- The check and the loop over the messages, and what comes behind.
unfoldable pub poll_round :
    DraftVersion → Reading → (Reading → Option (Reply × Reading)) → Option (Reply × Reading)
poll_round draft r next =
    let checked = check_control_message_length draft r.pending in
    if not checked.status.ok
    then some (checked, r)
    else poll_drained (drain drain_rounds draft r) next

unfoldable pub poll_loop : DraftVersion → List Read → Reading → Option (Reply × Reading)
poll_loop draft [] r = poll_round draft r poll_end
poll_loop draft (read ∷ reads) r =
    poll_round draft r (λ r'. poll_read draft r' read (poll_loop draft reads))

-- The answer, or nothing where the rounds over the messages are not enough.
unfoldable pub poll : DraftVersion → List Read → Reading → Option (Reply × Reading)
unfolding poll_loop
poll draft reads r =
    if not (is_draft22_or_later draft) then some (goes_on, r) else poll_loop draft reads r
