-- ===== src/Tests/Session/Subscriptions.antt =====
-- Filters and timeouts of subscriptions on concrete input.
use moqxr.Common.{◌≡◌, refl, true, false, none, some, [], ◌∷◌, arith}
use moqxr.Session.Subscriptions.{
  DeliveryTimeouts, SubscribeMessage, RequestUpdateMessage, SubscribeUpdateMessage, media,
  CmsfObject,
}
use moqxr.Session.Filters.{
  object_matches_filter, apply_subscribe_update, apply_request_update, request_update_extends_end,
  starts_at,
}
use moqxr.Session.Filters.Updates.{apply_subscribe_update-narrows, extends_end_sound}
use moqxr.Session.Timeouts.{delivery_timeouts_for_track}
use moqxr.Session.Timeouts.Smallest.{AllAsked, limits, delivery_timeouts_for_track-smallest}

-- The groups from 2 to 9 of a track.
abbrev subscribe : SubscribeMessage
subscribe = record {
  request_id = 1;
  track_namespace = "live" ∷ [];
  track_name = "video";
  subscriber_priority = 128;
  group_order = 1;
  forward = 1;
  filter_type = 0x04;
  start_group_id = 2;
  start_object_id = 0;
  end_group_id = 9;
  end_object_id = none;
  delivery_timeouts = record { object_ms = 300; subgroup_ms = 0 };
  fill_requested = false;
  location_filter = none;
  fill_location_filter = none;
  has_unnegotiated_range_filter = false;
  malformed_authorization_token = false;
  authorization_token_cache_overflow = false;
  unknown_authorization_token_alias = false;
}

abbrev object : CmsfObject
object = record {
  kind = media;
  track_name = "video";
  group_id = 5;
  subgroup_id = 0;
  object_id = 3;
  media_time_us = 0;
}

-- The groups from 4 to 6.
abbrev narrower : SubscribeUpdateMessage
narrower = record {
  request_id = 3;
  subscription_request_id = 1;
  start_group_id = 4;
  start_object_id = 0;
  end_group_plus_one = 7;
  subscriber_priority = 128;
  forward = 1;
}

narrower_accepted : (apply_subscribe_update subscribe narrower).0 ≡ true
unfolding apply_subscribe_update
narrower_accepted = refl

narrower_matches : object_matches_filter object (apply_subscribe_update subscribe narrower).1 ≡ true
unfolding apply_subscribe_update object_matches_filter
narrower_matches = refl

apply_subscribe_update-narrows_example : object_matches_filter object subscribe ≡ true
apply_subscribe_update-narrows_example =
    apply_subscribe_update-narrows object subscribe narrower narrower_accepted narrower_matches

-- From group 1 to the object 2 of group 6.
abbrev moved : RequestUpdateMessage
moved = record {
  request_id = 3;
  existing_request_id = some 1;
  object_delivery_timeout_ms = none;
  subgroup_delivery_timeout_ms = none;
  subscriber_priority = none;
  forward = none;
  subscription_filter = some (record {
    filter_type = 0x04;
    start_group_id = 1;
    start_object_id = 0;
    end_group_id = 6;
    end_object_id = some 2;
  });
  new_group_request = none;
  track_namespace_prefix = none;
  has_unnegotiated_range_filter = false;
  has_authorization_token = false;
  fill_requested = false;
}

moved_keeps : request_update_extends_end subscribe moved ≡ false
unfolding request_update_extends_end
moved_keeps = refl

moved_matches : object_matches_filter object (apply_request_update subscribe moved) ≡ true
unfolding apply_request_update object_matches_filter
moved_matches = refl

object_starts : starts_at object subscribe ≡ true
unfolding starts_at
object_starts = refl

extends_end_sound_example : object_matches_filter object subscribe ≡ true
extends_end_sound_example =
    extends_end_sound object subscribe moved (omega arith) moved_keeps moved_matches object_starts

abbrev publisher_timeouts : DeliveryTimeouts
publisher_timeouts = record { object_ms = 500; subgroup_ms = 0 }

delivery_timeouts_for_track-smallest_example :
    AllAsked
      (delivery_timeouts_for_track (subscribe ∷ []) "video" publisher_timeouts)
      (publisher_timeouts ∷ limits "video" (subscribe ∷ []))
delivery_timeouts_for_track-smallest_example =
    delivery_timeouts_for_track-smallest "video" (subscribe ∷ []) publisher_timeouts
