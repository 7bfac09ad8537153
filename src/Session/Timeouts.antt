-- ===== src/Session/Timeouts.antt =====
-- Delivery timeouts and deadlines in src/transport/moqt_session.cpp. A point in time is the number of
-- its nanoseconds behind the clock's epoch; the clock does not stand before its epoch.
pub mod Smallest
use moqxr.Common.{
  ℕ, zero, ◌+◌, ◌-◌, ◌*◌, ◌/◌, ◌≤◌, ◌≡◌, Bool, true, false, not, ◌&&◌, ◌||◌, Option, none, some,
  List, [], ◌∷◌, ltb, leb, ◌==◌, if◌then◌else◌, text_key, min, max,
}
use Prim.Native.String.{String}
use moqxr.Draft.{DraftVersion, is_draft16, is_draft18_or_later}
use moqxr.Session.Subscriptions.{DeliveryTimeouts, SubscribeMessage}

-- time_point::max(), and the largest count of milliseconds, which is the same number.
abbrev pub time_point_max : ℕ
time_point_max = 9223372036854775807

unfoldable pub deadline_after : ℕ → ℕ → Option ℕ
deadline_after start timeout_ms =
    if timeout_ms == 0
    then none
    else if ltb ((time_point_max - start) / 1000000) timeout_ms || ltb time_point_max timeout_ms
    then some time_point_max
    else some (start + timeout_ms * 1000000)

unfoldable pub timeouts_for_draft : DraftVersion → DeliveryTimeouts → DeliveryTimeouts
timeouts_for_draft draft timeouts =
    if not (is_draft16 draft) && not (is_draft18_or_later draft)
    then record { object_ms = 0; subgroup_ms = 0 }
    else if not (is_draft18_or_later draft)
    then record timeouts { subgroup_ms = 0 }
    else timeouts

unfoldable pub smaller_nonzero_timeout : ℕ → ℕ → ℕ
smaller_nonzero_timeout first second =
    if first == 0 then second else if second == 0 then first else min first second

unfoldable pub merge_delivery_timeouts : DeliveryTimeouts → DeliveryTimeouts → DeliveryTimeouts
unfolding smaller_nonzero_timeout
merge_delivery_timeouts first second = record {
  object_ms = smaller_nonzero_timeout first.object_ms second.object_ms;
  subgroup_ms = smaller_nonzero_timeout first.subgroup_ms second.subgroup_ms;
}

-- With the timeouts that hold so far.
unfoldable pub delivery_timeouts_for_track :
    List SubscribeMessage → String → DeliveryTimeouts → DeliveryTimeouts
unfolding merge_delivery_timeouts
delivery_timeouts_for_track [] track_name effective = effective
delivery_timeouts_for_track (subscribe ∷ rest) track_name effective =
    delivery_timeouts_for_track rest track_name (
      if text_key.beq subscribe.track_name track_name
      then merge_delivery_timeouts effective subscribe.delivery_timeouts
      else effective)

abbrev smaller : Option ℕ → ℕ → ℕ
smaller none priority = priority
smaller (some least) priority = min least priority

-- The loop of subscriber_priority_for_track, with the priority found so far.
unfoldable pub least_priority : List SubscribeMessage → String → Option ℕ → Option ℕ
least_priority [] track_name priority = priority
least_priority (subscribe ∷ rest) track_name priority = least_priority rest track_name (
    if text_key.beq subscribe.track_name track_name
    then some (smaller priority subscribe.subscriber_priority)
    else priority)

unfoldable pub subscriber_priority_for_track : List SubscribeMessage → String → ℕ → ℕ
unfolding least_priority
subscriber_priority_for_track subscriptions track_name fallback =
    elim (least_priority subscriptions track_name none) [
      | none ↦ fallback
      | some priority ↦ priority
    ]

abbrev is_due : ℕ → Option ℕ → Bool
is_due now none = false
is_due now (some deadline) = leb deadline now

unfoldable pub deadline_reached : ℕ → Option ℕ → Option ℕ → Bool
deadline_reached now object_deadline subgroup_deadline =
    is_due now object_deadline || is_due now subgroup_deadline

-- note_delivery_timeouts: the timeout that the transport is told, if it is told one.
unfoldable pub note_delivery_timeouts : DeliveryTimeouts → Option ℕ
note_delivery_timeouts delivery_timeouts =
    let close_drain_timeout_ms = max delivery_timeouts.object_ms delivery_timeouts.subgroup_ms in
    if not (close_drain_timeout_ms == 0) then some close_drain_timeout_ms else none
