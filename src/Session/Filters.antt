-- ===== src/Session/Filters.antt =====
-- The filter of a subscription in src/transport/moqt_session.cpp: object_matches_filter and what the
-- updates of a subscription do to it.
pub mod Updates
use moqxr.Common.{
  ℕ, ◌+◌, ◌-◌, ◌≤◌, ◌≡◌, Bool, true, false, not, ◌&&◌, ◌||◌, Option, none, some, List, [], ◌∷◌, ltb,
  leb, ◌==◌, if◌then◌else◌, text_key,
}
use moqxr.Draft.{DraftVersion, is_draft16, is_draft18_or_later}
use moqxr.Session.Subscriptions.{
  DeliveryTimeouts, SubscriptionFilter, SubscribeMessage, RequestUpdateMessage,
  SubscribeUpdateMessage, CmsfObject,
}

unfoldable pub starts_at : CmsfObject → SubscribeMessage → Bool
starts_at object subscribe =
    ltb subscribe.start_group_id object.group_id
    || (object.group_id == subscribe.start_group_id
        && leb subscribe.start_object_id object.object_id)

-- end_object_id.has_value() && group_id == end_group_id && object_id > *end_object_id
unfoldable pub is_past_end : ℕ → ℕ → ℕ → Option ℕ → Bool
is_past_end group_id object_id end_group_id none = false
is_past_end group_id object_id end_group_id (some end_object_id) =
    group_id == end_group_id && ltb end_object_id object_id

unfoldable pub object_matches_filter : CmsfObject → SubscribeMessage → Bool
unfolding starts_at is_past_end
object_matches_filter object subscribe =
    if subscribe.filter_type == 0x01
      || subscribe.filter_type == 0x02
      || subscribe.filter_type == 0x03
    then starts_at object subscribe
    else if subscribe.filter_type == 0x04
    then starts_at object subscribe
      && leb object.group_id subscribe.end_group_id
      && not (
          is_past_end object.group_id object.object_id subscribe.end_group_id
            subscribe.end_object_id)
    else true

abbrev value_or {ℓ} : {A : Type ℓ} → Option A → A → A
value_or none old = old
value_or (some new) old = new

abbrev set_filter : Option SubscriptionFilter → SubscribeMessage → SubscribeMessage
set_filter none subscribe = subscribe
set_filter (some filter) subscribe = record subscribe {
  filter_type = filter.filter_type;
  start_group_id = filter.start_group_id;
  start_object_id = filter.start_object_id;
  end_group_id = filter.end_group_id;
  end_object_id = filter.end_object_id;
}

-- The source's function returns true always.
unfoldable pub apply_request_update : SubscribeMessage → RequestUpdateMessage → SubscribeMessage
apply_request_update subscribe update = set_filter update.subscription_filter (record subscribe {
  delivery_timeouts = record {
    object_ms = value_or update.object_delivery_timeout_ms subscribe.delivery_timeouts.object_ms;
    subgroup_ms =
        value_or update.subgroup_delivery_timeout_ms subscribe.delivery_timeouts.subgroup_ms;
  };
  subscriber_priority = value_or update.subscriber_priority subscribe.subscriber_priority;
  forward = value_or update.forward subscribe.forward;
})

abbrev is_one : Option ℕ → Bool
is_one none = false
is_one (some forward) = forward == 1

unfoldable pub request_update_renews_peer_stopped_subgroups :
    DraftVersion → SubscribeMessage → RequestUpdateMessage → Bool
request_update_renews_peer_stopped_subgroups draft subscribe update =
    is_draft18_or_later draft && subscribe.forward == 0 && is_one update.forward

-- std::numeric_limits<std::size_t>::max()
abbrev pub whole_group : ℕ
whole_group = 18446744073709551615

-- std::pair{a, b} > std::pair{c, d}
unfoldable pub pair_above : ℕ → ℕ → ℕ → ℕ → Bool
pair_above a b c d = ltb c a || (not (ltb a c) && ltb d b)

unfoldable pub filter_extends_end : SubscribeMessage → Option SubscriptionFilter → Bool
unfolding pair_above
filter_extends_end subscribe none = false
filter_extends_end subscribe (some updated) =
    if not (subscribe.filter_type == 0x04)
    then false
    else if not (updated.filter_type == 0x04)
    then true
    else pair_above updated.end_group_id (value_or updated.end_object_id whole_group)
        subscribe.end_group_id (value_or subscribe.end_object_id whole_group)

unfoldable pub request_update_extends_end : SubscribeMessage → RequestUpdateMessage → Bool
unfolding filter_extends_end
request_update_extends_end subscribe update =
    filter_extends_end subscribe update.subscription_filter

abbrev set_range : SubscribeMessage → SubscribeUpdateMessage → ℕ → SubscribeMessage
set_range subscribe update updated_end_group_id =
    if not (update.end_group_plus_one == 0)
    then record subscribe { filter_type = 0x04; end_group_id = updated_end_group_id }
    else if not (subscribe.filter_type == 0x04)
    then record subscribe { end_group_id = 0 }
    else subscribe

unfoldable pub apply_subscribe_update :
    SubscribeMessage → SubscribeUpdateMessage → Bool × SubscribeMessage
apply_subscribe_update subscribe update =
    let start_increases =
      ltb subscribe.start_group_id update.start_group_id
      || (update.start_group_id == subscribe.start_group_id
          && leb subscribe.start_object_id update.start_object_id) in
    let updated_end_group_id =
      if update.end_group_plus_one == 0 then 0 else update.end_group_plus_one - 1 in
    if not start_increases
    then (false, subscribe)
    else if subscribe.filter_type == 0x04
        && (update.end_group_plus_one == 0 || ltb subscribe.end_group_id updated_end_group_id)
    then (false, subscribe)
    else (
      true,
      set_range
          (record subscribe {
            start_group_id = update.start_group_id;
            start_object_id = update.start_object_id;
            subscriber_priority = update.subscriber_priority;
            forward = update.forward;
          })
          update updated_end_group_id,
    )

-- The loop over the subscriptions: whether one of the track wants the object, and whether there is
-- one of the track.
unfoldable pub union_loop : CmsfObject → List SubscribeMessage → Bool → Bool × Bool
union_loop object [] has_matching_request = (false, has_matching_request)
union_loop object (subscribe ∷ rest) has_matching_request =
    let on_track = text_key.beq subscribe.track_name object.track_name in
    let later = union_loop object rest (has_matching_request || on_track) in
    if on_track && not (subscribe.forward == 0) && object_matches_filter object subscribe
    then (true, true)
    else later

abbrev as_list : Option SubscribeMessage → List SubscribeMessage
as_list none = []
as_list (some request) = request ∷ []

-- uses_priority_scheduler
abbrev pub uses_priority_scheduler : DraftVersion → Bool
uses_priority_scheduler draft = is_draft16 draft || is_draft18_or_later draft

-- With the subscriptions in the order of their ids; the published request comes last.
unfoldable pub live_object_matches_request_union :
    CmsfObject → DraftVersion → List SubscribeMessage → Option SubscribeMessage → Bool
unfolding union_loop object_matches_filter
live_object_matches_request_union object draft active_subscriptions published_request =
    if not (uses_priority_scheduler draft)
    then true
    else let (wanted, has_matching_request) = union_loop object active_subscriptions false in
      let (published, has_matching_request') =
        union_loop object (as_list published_request) has_matching_request in
      if wanted then true else if published then true else not has_matching_request'
