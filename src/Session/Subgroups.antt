-- ===== src/Session/Subgroups.antt =====
-- SubgroupSenderState of src/transport/moqt_session.cpp: the streams of the open subgroups, the objects
-- that wait to be taken by the transport, and which subgroups are closed. try_serve, serve and
-- finish_group, which write to the transport, are not here. What the transport says of its streams is
-- an argument.
pub mod Closed
use moqxr.Common.{
  ℕ, zero, ◌-◌, ◌≡◌, ◌↔◌, refl, ap, Bool, true, false, not, ◌&&◌, ◌||◌, Option, none, some, List,
  [], ◌∷◌, ◌++◌, arith, ◌==◌, if◌then◌else◌, Eq, nat_eq, nat_beq_iff,
}
use moqxr.Common.Assoc.{lookup, erase}
use moqxr.Common.Assoc
use moqxr.Common.Bytes.{sub64}
use moqxr.Failover.{TransportStatus, failure, fatal}
use moqxr.Session.Violations.{success}
use moqxr.Session.Completed.{CompletionTracker, contains, insert, clear, empty_tracker}

pub record Key : Type 0 where
  pub group_id : ℕ
  pub subgroup_id : ℕ

pub key_beq_iff :
    (a b : Key) → ((a.group_id == b.group_id && a.subgroup_id == b.subgroup_id) ≡ true) ↔ (a ≡ b)
key_beq_iff a b = ground arith

instance abbrev pub key_eq : Eq Key
key_eq = record {
  beq = λ a b. a.group_id == b.group_id && a.subgroup_id == b.subgroup_id;
  beq_iff = key_beq_iff;
}

pub record OpenStream : Type 0 where
  pub stream_id : ℕ
  pub last_object_id : Option ℕ
  pub transport_priority : ℕ
  pub properties_present : Bool

pub record ObjectWriteOptions : Type 0 where
  pub transport_priority : ℕ
  pub object_deadline : Option ℕ
  pub subgroup_deadline : Option ℕ

pub record PendingObject : Type 0 where
  pub object_id : ℕ
  pub wire_bytes : List ℕ
  pub fin : Bool
  pub options : ObjectWriteOptions

pub record SubgroupSenderState : Type 0 where
  pub streams : List (Key × OpenStream)
  pub pending_objects : List (Key × PendingObject)
  pub stream_keys : List (ℕ × Key)
  pub closed_subgroups : CompletionTracker
  pub peer_stopped_subgroups : CompletionTracker
  pub completion_history_exhausted : Bool
  pub stream_count : ℕ

unfoldable pub is_closed : SubgroupSenderState → Key → Bool
is_closed s key =
    contains s.closed_subgroups key.group_id key.subgroup_id
    || contains s.peer_stopped_subgroups key.group_id key.subgroup_id

unfoldable pub completion_history_status : SubgroupSenderState → TransportStatus
completion_history_status s =
    if s.completion_history_exhausted
    then failure "subgroup completion history exceeded bounded sparse range capacity" fatal
    else success

abbrev keep_closed : SubgroupSenderState → Bool × CompletionTracker → Bool × SubgroupSenderState
keep_closed s (recorded, closed) = (
  recorded,
  record s {
    closed_subgroups = closed;
    completion_history_exhausted = if not recorded then true else s.completion_history_exhausted;
  },
)

abbrev keep_stopped : SubgroupSenderState → Bool × CompletionTracker → Bool × SubgroupSenderState
keep_stopped s (recorded, stopped) = (
  recorded,
  record s {
    peer_stopped_subgroups = stopped;
    completion_history_exhausted = if not recorded then true else s.completion_history_exhausted;
  },
)

unfoldable pub record_permanent_completion : Key → SubgroupSenderState → Bool × SubgroupSenderState
record_permanent_completion key s =
    keep_closed s (insert key.group_id key.subgroup_id s.closed_subgroups)

unfoldable pub record_peer_stopped_completion :
    Key → SubgroupSenderState → Bool × SubgroupSenderState
record_peer_stopped_completion key s =
    keep_stopped s (insert key.group_id key.subgroup_id s.peer_stopped_subgroups)

abbrev erase_id : Option OpenStream → List (ℕ × Key) → List (ℕ × Key)
erase_id none stream_keys = stream_keys
erase_id (some stream) stream_keys = erase stream.stream_id stream_keys

unfoldable pub close_subgroup : Key → SubgroupSenderState → Bool × SubgroupSenderState
unfolding record_permanent_completion
close_subgroup key s = record_permanent_completion key (record s {
  streams = erase key s.streams;
  stream_keys = erase_id (lookup key s.streams) s.stream_keys;
  pending_objects = erase key s.pending_objects;
})

abbrev is_stream : ℕ → Option OpenStream → Bool
is_stream stream_id none = false
is_stream stream_id (some stream) = stream.stream_id == stream_id

-- retire_transport_stream, of a stream whose key is known.
unfoldable pub retire_key : ℕ → Key → Bool → Bool → SubgroupSenderState → SubgroupSenderState
unfolding record_permanent_completion record_peer_stopped_completion
retire_key stream_id key peer_stopped expired s =
    let s' : SubgroupSenderState = record s {
      streams =
          if is_stream stream_id (lookup key s.streams) then erase key s.streams else s.streams;
      pending_objects = erase key s.pending_objects;
      stream_keys = erase stream_id s.stream_keys;
    } in
    if peer_stopped && not expired
    then (record_peer_stopped_completion key s').1
    else (record_permanent_completion key s').1

unfoldable pub retire_transport_stream :
    ℕ → Bool → Bool → SubgroupSenderState → Bool × SubgroupSenderState
unfolding retire_key
retire_transport_stream stream_id peer_stopped expired s = elim (lookup stream_id s.stream_keys) [
  | none ↦ (false, s)
  | some key ↦ (true, retire_key stream_id key peer_stopped expired s)
]

-- What media_stream_expired and media_stream_peer_stopped say of each stream.
pub record StreamFacts : Type 0 where
  pub expired : ℕ → Bool
  pub peer_stopped : ℕ → Bool

abbrev pub changed_stream_ids : StreamFacts → List (ℕ × Key) → List ℕ
changed_stream_ids facts [] = []
changed_stream_ids facts ((stream_id, key) ∷ stream_keys) =
    if facts.expired stream_id || facts.peer_stopped stream_id
    then stream_id ∷ changed_stream_ids facts stream_keys
    else changed_stream_ids facts stream_keys

-- The loop over the streams that changed; that each of them is acknowledged is left out.
unfoldable pub retire_all : StreamFacts → List ℕ → SubgroupSenderState → SubgroupSenderState
unfolding retire_transport_stream
retire_all facts [] s = s
retire_all facts (stream_id ∷ stream_ids) s =
    retire_all facts stream_ids
      (retire_transport_stream stream_id (facts.peer_stopped stream_id) (facts.expired stream_id)
        s).1

unfoldable pub observe_transport_stream_state :
    StreamFacts → SubgroupSenderState → SubgroupSenderState
unfolding retire_all
observe_transport_stream_state facts s = retire_all facts (changed_stream_ids facts s.stream_keys) s

unfoldable pub retire_peer_stopped_stream :
    StreamFacts → ℕ → SubgroupSenderState → Bool × SubgroupSenderState
unfolding retire_transport_stream
retire_peer_stopped_stream facts stream_id s =
    if not (facts.peer_stopped stream_id)
    then (false, s)
    else retire_transport_stream stream_id true (facts.expired stream_id) s

unfoldable pub retire_expired_stream :
    StreamFacts → ℕ → SubgroupSenderState → Bool × SubgroupSenderState
unfolding retire_transport_stream
retire_expired_stream facts stream_id s =
    if not (facts.expired stream_id)
    then (false, s)
    else retire_transport_stream stream_id false true s

unfoldable pub renew_peer_stopped_subgroups :
    StreamFacts → SubgroupSenderState → SubgroupSenderState
unfolding observe_transport_stream_state
renew_peer_stopped_subgroups facts s =
    let s' = observe_transport_stream_state facts s in
    record s' { peer_stopped_subgroups = clear s'.peer_stopped_subgroups }

abbrev is_pending : ℕ → Option PendingObject → Bool
is_pending object_id none = false
is_pending object_id (some pending) = pending.object_id == object_id

abbrev never_sent : Option OpenStream → Bool
never_sent none = false
never_sent (some stream) = elim stream.last_object_id [ none ↦ true | some object_id ↦ false ]

unfoldable pub discard_unadmitted : Key → ℕ → SubgroupSenderState → SubgroupSenderState
discard_unadmitted key object_id s =
    let found = lookup key s.streams in
    if not (is_pending object_id (lookup key s.pending_objects))
    then s
    else if not (never_sent found)
    then record s { pending_objects = erase key s.pending_objects }
    else record s {
      pending_objects = erase key s.pending_objects;
      stream_keys = erase_id found s.stream_keys;
      streams = erase key s.streams;
      stream_count = s.stream_count - 1;
    }

abbrev with_deadlines : Option ℕ → Option ℕ → PendingObject → PendingObject
with_deadlines object_deadline subgroup_deadline pending = record pending {
  options = record {
    transport_priority = pending.options.transport_priority;
    object_deadline = object_deadline;
    subgroup_deadline = subgroup_deadline;
  };
}

unfoldable pub replace_pending :
    Key
    → ℕ
    → (PendingObject → PendingObject)
    → List (Key × PendingObject)
    → List (Key × PendingObject)
replace_pending key object_id change [] = []
replace_pending key object_id change ((k, pending) ∷ objects) =
    if key_eq.beq k key
    then (if pending.object_id == object_id
        then (k, change pending) ∷ objects
        else (k, pending) ∷ objects)
    else (k, pending) ∷ replace_pending key object_id change objects

unfoldable pub refresh_unadmitted_deadlines :
    Key → ℕ → Option ℕ → Option ℕ → SubgroupSenderState → SubgroupSenderState
unfolding replace_pending
refresh_unadmitted_deadlines key object_id object_deadline subgroup_deadline s = record s {
  pending_objects =
      replace_pending key object_id (with_deadlines object_deadline subgroup_deadline)
        s.pending_objects;
}

abbrev or_first : TransportStatus → Bool → TransportStatus → TransportStatus
or_first first_failure failed status = if failed && first_failure.ok then status else first_failure

-- The loop over the streams that were open, with what reset_stream answers for each.
unfoldable pub cancel_loop :
    (ℕ → TransportStatus)
    → List (Key × OpenStream)
    → TransportStatus
    → SubgroupSenderState
    → TransportStatus × SubgroupSenderState
unfolding completion_history_status close_subgroup
cancel_loop resets [] first_failure s = (first_failure, s)
cancel_loop resets ((key, stream) ∷ streams) first_failure s =
    let (recorded, s') = close_subgroup key s in
    let reset_status = resets stream.stream_id in
    let after_close = or_first first_failure (not recorded) (completion_history_status s') in
    cancel_loop resets streams (or_first after_close (not reset_status.ok) reset_status) s'

unfoldable pub cancel_all_open_subgroups :
    StreamFacts
    → (ℕ → TransportStatus)
    → SubgroupSenderState
    → TransportStatus × SubgroupSenderState
unfolding observe_transport_stream_state cancel_loop
cancel_all_open_subgroups facts resets s =
    let s' = observe_transport_stream_state facts s in cancel_loop resets s'.streams success s'
