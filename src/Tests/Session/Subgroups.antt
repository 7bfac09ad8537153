-- ===== src/Tests/Session/Subgroups.antt =====
-- The bookkeeping of subgroups on concrete input.
use moqxr.Common.{◌≡◌, refl, true, false, none, some, List, [], ◌∷◌, arith, nat_eq}
use moqxr.Common.Assoc.{lookup, erase}
use moqxr.Common.Assoc
use moqxr.Session.Completed.{empty_tracker, insert, previous_range, next_range}
use moqxr.Session.Completed.Tracker.{IsValid}
use moqxr.Session.Subgroups.{
  Key, SubgroupSenderState, StreamFacts, is_closed, close_subgroup, record_permanent_completion,
}
use moqxr.Session.Subgroups.Closed.{
  SenderCall, closes, observes, renews, run_calls, run_calls-is_closed,
}

abbrev key : Key
key = record { group_id = 5; subgroup_id = 0 }

abbrev other : Key
other = record { group_id = 6; subgroup_id = 0 }

-- Two subgroups with a stream each.
abbrev two_open : SubgroupSenderState
two_open = record {
  streams =
      (
        key,
        record {
          stream_id = 2;
          last_object_id = some 7;
          transport_priority = 255;
          properties_present = false;
        },
      )
      ∷ (
        other,
        record {
          stream_id = 6;
          last_object_id = none;
          transport_priority = 255;
          properties_present = false;
        },
      )
      ∷ [];
  pending_objects = [];
  stream_keys = (2, key) ∷ (6, other) ∷ [];
  closed_subgroups = empty_tracker;
  peer_stopped_subgroups = empty_tracker;
  completion_history_exhausted = false;
  stream_count = 2;
}

empty-IsValid : IsValid empty_tracker
unfolding empty_tracker
empty-IsValid = omega arith

-- The peer has stopped every stream.
abbrev stopped : StreamFacts
stopped = record { expired = λ stream_id. false; peer_stopped = λ stream_id. true }

abbrev calls : List SenderCall
calls = observes stopped ∷ renews stopped ∷ closes other ∷ []

close_recorded : (close_subgroup key two_open).0 ≡ true
unfolding close_subgroup record_permanent_completion empty_tracker insert previous_range next_range
    lookup Assoc.insert
close_recorded = refl

run_calls-is_closed_example : is_closed (run_calls calls (close_subgroup key two_open).1) key ≡ true
run_calls-is_closed_example =
    run_calls-is_closed key two_open calls empty-IsValid (omega arith) (omega arith) (omega arith)
      (omega arith) close_recorded
