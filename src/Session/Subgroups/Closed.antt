-- ===== src/Session/Subgroups/Closed.antt =====
-- Subgroups that SubgroupSenderState (src/transport/moqt_session.cpp) has closed for good.
use moqxr.Common.{
  ℕ, ◌≡◌, Bool, true, false, not, ◌&&◌, Option, none, some, List, [], ◌∷◌, arith, ◌==◌,
  if◌then◌else◌, Bool-cases, Option-cases, inl, inr, All, nat_eq,
}
use moqxr.Common.Assoc.{lookup, erase, AllValues, AllValues-lookup, AllValues-erase}
use moqxr.Common.Bytes.{IsU64}
use moqxr.Failover.{TransportStatus}
use moqxr.Session.Violations.{success}
use moqxr.Session.Completed.{contains}
use moqxr.Session.Completed.Tracker.{IsValid, insert-Inserts}
use moqxr.Session.Subgroups.{
  Key, key_eq, OpenStream, SubgroupSenderState, is_closed, record_permanent_completion,
  record_peer_stopped_completion, close_subgroup, erase_id, retire_key, retire_transport_stream,
  StreamFacts, changed_stream_ids, retire_all, observe_transport_stream_state,
  retire_peer_stopped_stream, retire_expired_stream, renew_peer_stopped_subgroups,
  discard_unadmitted, refresh_unadmitted_deadlines, cancel_loop, cancel_all_open_subgroups,
  is_stream, is_pending, never_sent,
}

-- The calls that change the state, but those that write objects.
pub data SenderCall : Type 0 where
  closes : Key → SenderCall
  observes : StreamFacts → SenderCall
  stops expires : StreamFacts → ℕ → SenderCall
  renews : StreamFacts → SenderCall
  discards : Key → ℕ → SenderCall
  refreshes : Key → ℕ → Option ℕ → Option ℕ → SenderCall
  cancels : StreamFacts → (ℕ → TransportStatus) → SenderCall

abbrev pub call : SenderCall → SubgroupSenderState → SubgroupSenderState
call (closes key) s = (close_subgroup key s).1
call (observes facts) s = observe_transport_stream_state facts s
call (stops facts stream_id) s = (retire_peer_stopped_stream facts stream_id s).1
call (expires facts stream_id) s = (retire_expired_stream facts stream_id s).1
call (renews facts) s = renew_peer_stopped_subgroups facts s
call (discards key object_id) s = discard_unadmitted key object_id s
call (refreshes key object_id object subgroup) s =
    refresh_unadmitted_deadlines key object_id object subgroup s
call (cancels facts resets) s = (cancel_all_open_subgroups facts resets s).1

abbrev pub run_calls : List SenderCall → SubgroupSenderState → SubgroupSenderState
run_calls [] s = s
run_calls (c ∷ calls) s = run_calls calls (call c s)

-- A call names a 64-bit group.
abbrev pub NamesGroup : SenderCall → Type 0
NamesGroup (closes key) = IsU64 key.group_id
NamesGroup _ = Unit {0}

abbrev pub KeyFits : Key → Type 0
KeyFits key = IsU64 key.group_id

abbrev pub KeysFit : List (Key × OpenStream) → Type 0
KeysFit [] = Unit {0}
KeysFit ((key, stream) ∷ streams) = KeyFits key × KeysFit streams

-- The record of closed subgroups is valid and has the subgroup; the groups are 64-bit numbers.
pub record HasClosed (x j : ℕ) (s : SubgroupSenderState) : Type 0 where
  pub valid : IsValid s.closed_subgroups
  pub holds : contains s.closed_subgroups x j ≡ true
  pub ids : AllValues KeyFits s.stream_keys
  pub keys : KeysFit s.streams

KeysFit-erase :
    (key : Key) (streams : List (Key × OpenStream)) → KeysFit streams → KeysFit (erase key streams)
unfolding erase
KeysFit-erase key [] h = tt
KeysFit-erase key ((k, stream) ∷ streams) h =
    elim (Bool-cases (k.group_id == key.group_id && k.subgroup_id == key.subgroup_id)) [
      | inl hit ↦ rw hit h.1
      | inr miss ↦ rw miss (h.0, KeysFit-erase key streams h.1)
    ]

erase_id-fits :
    (found : Option OpenStream) (ids : List (ℕ × Key))
    → AllValues KeyFits ids
    → AllValues KeyFits (erase_id found ids)
erase_id-fits none ids h = h
erase_id-fits (some stream) ids h = AllValues-erase KeyFits stream.stream_id ids h

module _ (x j : ℕ) where
  record-HasClosed :
      (key : Key) (s : SubgroupSenderState)
      → KeyFits key
      → HasClosed x j s
      → HasClosed x j (record_permanent_completion key s).1
  unfolding record_permanent_completion
  record-HasClosed key s fits h =
      let step = insert-Inserts key.group_id key.subgroup_id x j s.closed_subgroups h.valid fits in
      record {
        valid = step.valid;
        holds = ground (arith, step.holds, h.holds);
        ids = h.ids;
        keys = h.keys;
      }

  stopped-HasClosed :
      (key : Key) (s : SubgroupSenderState)
      → HasClosed x j s
      → HasClosed x j (record_peer_stopped_completion key s).1
  unfolding record_peer_stopped_completion
  stopped-HasClosed key s h = record {
    valid = h.valid;
    holds = h.holds;
    ids = h.ids;
    keys = h.keys;
  }

  close-HasClosed :
      (key : Key) (s : SubgroupSenderState)
      → KeyFits key
      → HasClosed x j s
      → HasClosed x j (close_subgroup key s).1
  unfolding close_subgroup
  close-HasClosed key s fits h = record-HasClosed key _ fits (record {
    valid = h.valid;
    holds = h.holds;
    ids = erase_id-fits (lookup key s.streams) s.stream_keys h.ids;
    keys = KeysFit-erase key s.streams h.keys;
  })

  -- The streams and the ids after a stream is retired.
  retire_key-HasClosed :
      (stream_id : ℕ) (key : Key) (peer_stopped expired : Bool) (s : SubgroupSenderState)
      → KeyFits key
      → HasClosed x j s
      → HasClosed x j (retire_key stream_id key peer_stopped expired s)
  unfolding retire_key
  retire_key-HasClosed stream_id key peer_stopped expired s fits h =
      elim (Bool-cases (peer_stopped && not expired)) [
        | inl stopped ↦ rw stopped (stopped-HasClosed key _ retired)
        | inr ended ↦ rw ended (record-HasClosed key _ fits retired)
      ]
    where
      kept : (b : Bool) → KeysFit (if b then erase key s.streams else s.streams)
      kept true = KeysFit-erase key s.streams h.keys
      kept false = h.keys

      retired : HasClosed x j (record s {
        streams =
            if is_stream stream_id (lookup key s.streams) then erase key s.streams else s.streams;
        pending_objects = erase key s.pending_objects;
        stream_keys = erase stream_id s.stream_keys;
      })
      retired = record {
        valid = h.valid;
        holds = h.holds;
        ids = AllValues-erase KeyFits stream_id s.stream_keys h.ids;
        keys = kept (is_stream stream_id (lookup key s.streams));
      }

  retire-HasClosed :
      (stream_id : ℕ) (peer_stopped expired : Bool) (s : SubgroupSenderState)
      → HasClosed x j s
      → HasClosed x j (retire_transport_stream stream_id peer_stopped expired s).1
  unfolding retire_transport_stream
  retire-HasClosed stream_id peer_stopped expired s h =
      elim (Option-cases (lookup stream_id s.stream_keys)) [
        | inl unknown ↦ rw (retire_transport_stream, unknown) h
        | inr (key, known) ↦
            rw (retire_transport_stream, known)
              (retire_key-HasClosed stream_id key peer_stopped expired s
                (AllValues-lookup KeyFits stream_id s.stream_keys h.ids known) h)
      ]

  retire_all-HasClosed :
      (facts : StreamFacts) (ids : List ℕ) (s : SubgroupSenderState)
      → HasClosed x j s
      → HasClosed x j (retire_all facts ids s)
  unfolding retire_all
  retire_all-HasClosed facts [] s h = h
  retire_all-HasClosed facts (id ∷ ids) s h =
      retire_all-HasClosed facts ids _
        (retire-HasClosed id (facts.peer_stopped id) (facts.expired id) s h)

  observe-HasClosed :
      (facts : StreamFacts) (s : SubgroupSenderState)
      → HasClosed x j s
      → HasClosed x j (observe_transport_stream_state facts s)
  unfolding observe_transport_stream_state
  observe-HasClosed facts s h =
      retire_all-HasClosed facts (changed_stream_ids facts s.stream_keys) s h

  discard-HasClosed :
      (key : Key) (object_id : ℕ) (s : SubgroupSenderState)
      → HasClosed x j s
      → HasClosed x j (discard_unadmitted key object_id s)
  unfolding discard_unadmitted
  discard-HasClosed key object_id s h =
      elim (Bool-cases (is_pending object_id (lookup key s.pending_objects))) [
        | inl waits ↦ elim (Bool-cases (never_sent (lookup key s.streams))) [
          | inl unsent ↦
              rw (waits, unsent)
                (record {
                  valid = h.valid;
                  holds = h.holds;
                  ids = erase_id-fits (lookup key s.streams) s.stream_keys h.ids;
                  keys = KeysFit-erase key s.streams h.keys;
                })
          | inr sent ↦
              rw (waits, sent)
                (record { valid = h.valid; holds = h.holds; ids = h.ids; keys = h.keys })
        ]
        | inr other ↦ rw other h
      ]

  cancel-HasClosed :
      (resets : ℕ → TransportStatus) (streams : List (Key × OpenStream)) (first : TransportStatus)
      (s : SubgroupSenderState)
      → KeysFit streams
      → HasClosed x j s
      → HasClosed x j (cancel_loop resets streams first s).1
  unfolding cancel_loop
  cancel-HasClosed resets [] first s fits h = h
  cancel-HasClosed resets ((key, stream) ∷ streams) first s fits h =
      cancel-HasClosed resets streams _ _ fits.1 (close-HasClosed key s fits.0 h)

  call-HasClosed :
      (c : SenderCall) (s : SubgroupSenderState)
      → NamesGroup c
      → HasClosed x j s
      → HasClosed x j (call c s)
  unfolding retire_peer_stopped_stream retire_expired_stream renew_peer_stopped_subgroups
      refresh_unadmitted_deadlines cancel_all_open_subgroups
  call-HasClosed (closes key) s fits h = close-HasClosed key s fits h
  call-HasClosed (observes facts) s fits h = observe-HasClosed facts s h
  call-HasClosed (stops facts id) s fits h = elim (Bool-cases (facts.peer_stopped id)) [
    | inl stopped ↦ rw (call, stopped) (retire-HasClosed id true (facts.expired id) s h)
    | inr runs ↦ rw (call, runs) h
  ]
  call-HasClosed (expires facts id) s fits h = elim (Bool-cases (facts.expired id)) [
    | inl expired ↦ rw (call, expired) (retire-HasClosed id false true s h)
    | inr runs ↦ rw (call, runs) h
  ]
  call-HasClosed (renews facts) s fits h =
      let seen = observe-HasClosed facts s h in
      record { valid = seen.valid; holds = seen.holds; ids = seen.ids; keys = seen.keys }
  call-HasClosed (discards key object_id) s fits h = discard-HasClosed key object_id s h
  call-HasClosed (refreshes key object_id object subgroup) s fits h = record {
    valid = h.valid;
    holds = h.holds;
    ids = h.ids;
    keys = h.keys;
  }
  call-HasClosed (cancels facts resets) s fits h =
      let seen = observe-HasClosed facts s h in
      cancel-HasClosed resets (observe_transport_stream_state facts s).streams success _ seen.keys
        seen

  run_calls-HasClosed :
      (calls : List SenderCall) (s : SubgroupSenderState)
      → All NamesGroup calls
      → HasClosed x j s
      → HasClosed x j (run_calls calls s)
  run_calls-HasClosed [] s fits h = h
  run_calls-HasClosed (c ∷ calls) s fits h =
      run_calls-HasClosed calls (call c s) fits.1 (call-HasClosed c s fits.0 h)

-- A subgroup that is closed stays closed. When close_subgroup has recorded a subgroup in a state with a
-- valid record of closed subgroups, in which all groups are 64-bit numbers, the subgroup is closed
-- after any later calls, also those that renew the subgroups that the peer has stopped; calls that
-- write objects are not among them.
pub run_calls-is_closed :
    (key : Key) (s : SubgroupSenderState) (calls : List SenderCall)
    → IsValid s.closed_subgroups
    → AllValues KeyFits s.stream_keys
    → KeysFit s.streams
    → KeyFits key
    → All NamesGroup calls
    → (close_subgroup key s).0 ≡ true
    → is_closed (run_calls calls (close_subgroup key s).1) key ≡ true
unfolding is_closed close_subgroup record_permanent_completion
run_calls-is_closed key s calls valid ids keys fits names recorded =
    let step =
      insert-Inserts key.group_id key.subgroup_id key.group_id key.subgroup_id s.closed_subgroups
        valid fits in
    let closed : HasClosed key.group_id key.subgroup_id (close_subgroup key s).1 = record {
      valid = step.valid;
      holds = ground (arith, step.holds, recorded);
      ids = erase_id-fits (lookup key s.streams) s.stream_keys ids;
      keys = KeysFit-erase key s.streams keys;
    } in
    let later = run_calls-HasClosed key.group_id key.subgroup_id calls _ names closed in
    rw later.holds
