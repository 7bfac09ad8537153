-- ===== src/Failover.antt =====
-- src/endpoint_failover.cpp, publish_with_failover: the endpoints in order, each with a number of
-- retries. The callbacks' effects outside are not seen; what is seen is the list of the events that go
-- to the sink and of the waits, in order. An attempt's answer depends on the endpoint, its index and
-- the number of the attempt, which no two attempts share.
pub mod Attempts
pub mod Outcomes
pub mod Replay
use moqxr.Common.{
  ℕ, zero, suc, ◌+◌, ◌-◌, ◌*◌, ◌/◌, ◌%◌, ◌^◌, ◌≤◌, ◌<◌, ◌≡◌, ◌≢◌, ◌⊎◌, inl, inr, refl, sym, ap, ◌∙◌,
  Bool, true, false, not, ◌&&◌, ◌||◌, Option, none, some, List, [], ◌∷◌, ◌++◌, map, arith, ltb, leb,
  ◌==◌, if◌then◌else◌, length, get_or, take, drop, All, get_or-append, length-append, append-nil,
  append_assoc, Bool-cases, Option-cases, ◌>>=◌,
}
use Prim.Native.String.{String}
use moqxr.Common.Bytes.{u64_mod}

pub data FailureKind : Type 0 where
  no_failure retryable endpoint_permanent fatal cancelled : FailureKind

pub record TransportStatus : Type 0 where
  pub ok : Bool
  pub message : String
  pub failure_kind : FailureKind
  pub migration_uri : Option (List ℕ)
  pub migration_timeout_ms : Option ℕ

abbrev pub failure : String → FailureKind → TransportStatus
failure message kind = record {
  ok = false;
  message = message;
  failure_kind = kind;
  migration_uri = none;
  migration_timeout_ms = none;
}

-- EndpointFailoverEvent, a constructor for each kind with the fields that the code sets
-- (but the success that every attempt carries), and the calls
-- of retry_wait.
pub data Event : Type 0 where
  attempt_event : (endpoint_index attempt max_attempts : ℕ) → Event
  retry_event : (endpoint_index attempt max_attempts delay : ℕ) → TransportStatus → Event
  advance_event : (endpoint_index max_attempts : ℕ) → TransportStatus → Event
  exhausted_event : (endpoint_index max_attempts : ℕ) → TransportStatus → Event
  waited : (delay : ℕ) → Event

-- How the attempts at one endpoint end: with the function's answer, or with the loop left.
pub data Ending : Type 0 where
  returns : TransportStatus → Ending
  breaks : TransportStatus → Ending

abbrev pub retry_delay : ℕ
retry_delay = 1000

abbrev pub stops : FailureKind → Bool
stops cancelled = true
stops fatal = true
stops _ = false

abbrev pub is_permanent : FailureKind → Bool
is_permanent endpoint_permanent = true
is_permanent _ = false

-- `publish_attempt index attempt` is the callback's answer for endpoints[index].
module _ (publish_attempt : ℕ → ℕ → TransportStatus) (retry_wait : Bool) where
  abbrev pub wait_events : List Event
  wait_events = if retry_wait then waited retry_delay ∷ [] else []

  -- The inner loop with `rounds` rounds left, the next attempt and the status so far.
  unfoldable pub attempt_loop : ℕ → ℕ → ℕ → ℕ → TransportStatus → List Event × Ending
  attempt_loop index max_attempts zero attempt last_status = ([], breaks last_status)
  attempt_loop index max_attempts (suc rounds) attempt last_status =
      let status = publish_attempt index attempt in
      let begin = attempt_event index attempt max_attempts in
      let (rest, ending) = attempt_loop index max_attempts rounds (attempt + 1) status in
      if status.ok
      then (begin ∷ [], returns status)
      else if stops status.failure_kind
      then (begin ∷ [], returns status)
      else if is_permanent status.failure_kind || attempt == max_attempts
      then (begin ∷ [], breaks status)
      else (
        begin
            ∷ retry_event index (attempt + 1) max_attempts retry_delay status
            ∷ (wait_events ++ rest),
        ending,
      )

  -- The outer loop with `left` endpoints left; `count` is their number in all.
  unfoldable pub endpoint_loop : ℕ → ℕ → ℕ → ℕ → TransportStatus → List Event × TransportStatus
  endpoint_loop zero index count max_attempts last_status =
      (exhausted_event (count - 1) max_attempts last_status ∷ [], last_status)
  endpoint_loop (suc left) index count max_attempts last_status =
      let (events, ending) = attempt_loop index max_attempts max_attempts 1 last_status in
      elim ending [
        | returns status ↦ (events, status)
        | breaks status ↦
            let advance =
              if ltb (index + 1) count then advance_event index max_attempts status ∷ [] else [] in
            let (rest, result) = endpoint_loop left (index + 1) count max_attempts status in
            (events ++ (advance ++ rest), result)
      ]

abbrev pub all_failed : TransportStatus
all_failed = failure "all publish endpoints failed" retryable

-- `count` is the number of endpoints. The callback may be missing; a missing one is refused.
unfoldable pub publish_with_failover :
    ℕ → ℕ → Option (ℕ → ℕ → TransportStatus) → Bool → List Event × TransportStatus
publish_with_failover zero retry_count publish_attempt retry_wait =
    ([], failure "no publish endpoints configured" fatal)
publish_with_failover (suc n) retry_count none retry_wait =
    ([], failure "no publish attempt callback configured" fatal)
publish_with_failover (suc n) retry_count (some publish_attempt) retry_wait =
    if retry_count == (u64_mod - 1)
    then ([], failure "retry count is too large" fatal)
    else endpoint_loop publish_attempt retry_wait (suc n) 0 (suc n) (retry_count + 1) all_failed
