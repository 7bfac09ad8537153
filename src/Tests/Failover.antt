-- ===== src/Tests/Failover.antt =====
-- Publishing to two endpoints of which the first is refused for good.
pub mod Replay
use moqxr.Common.{ℕ, ◌≤◌, ◌≡◌, refl, true, none, some, [], ◌∷◌, arith, ◌==◌, if◌then◌else◌, length}
use moqxr.Failover.{
  TransportStatus, failure, endpoint_permanent, retryable, no_failure, publish_with_failover,
  all_failed, attempt_loop, endpoint_loop,
}
use moqxr.Failover.Attempts.{attempts, Schedule, publish_with_failover-Schedule}
use moqxr.Failover.Outcomes.{
  last_answer, any_ok, publish_with_failover-length, publish_with_failover-outcome,
}

abbrev success : TransportStatus
success = record {
  ok = true;
  message = "";
  failure_kind = no_failure;
  migration_uri = none;
  migration_timeout_ms = none;
}

-- The first endpoint is refused; the second answers its second attempt.
abbrev answer : ℕ → ℕ → TransportStatus
answer i a =
    if i == 0
    then failure "refused" endpoint_permanent
    else if a == 1
    then failure "timed out" retryable
    else success

attempts_test :
    attempts (publish_with_failover 2 3 (some answer) true).0 ≡ (0, 1) ∷ (1, 1) ∷ (1, 2) ∷ []
unfolding publish_with_failover endpoint_loop attempt_loop attempts
attempts_test = refl

publish_with_failover-Schedule_example :
    Schedule answer 2 4 0 1 (attempts (publish_with_failover 2 3 (some answer) true).0)
publish_with_failover-Schedule_example =
    publish_with_failover-Schedule answer true 2 3 (omega arith) (omega arith)

publish_with_failover-outcome_example :
    let (events, status) = publish_with_failover 2 3 (some answer) true in
    (status ≡ last_answer answer (attempts events) all_failed)
    × (status.ok ≡ any_ok answer (attempts events))
publish_with_failover-outcome_example =
    publish_with_failover-outcome answer true 2 3 (omega arith) (omega arith)
