-- ===== src/Session/Subscriptions.antt =====
-- The subscription and its updates as src/transport/moqt_session.cpp holds them: SubscribeMessage,
-- SubscriptionFilter,
-- SubscribeTracksMessage, RequestUpdateMessage and SubscribeUpdateMessage of
-- include/openmoq/publisher/transport/moqt_control_messages.h, and what the session reads of a
-- CmsfObject of include/openmoq/publisher/cmsf_packager.h.
use Prim.Native.String.{String}
use moqxr.Common.{ℕ, Bool, Option, List}

pub record DeliveryTimeouts : Type 0 where
  pub object_ms : ℕ
  pub subgroup_ms : ℕ

pub record SubscriptionFilter : Type 0 where
  pub filter_type : ℕ
  pub start_group_id : ℕ
  pub start_object_id : ℕ
  pub end_group_id : ℕ
  pub end_object_id : Option ℕ

pub record SubscribeTracksMessage : Type 0 where
  pub request_id : ℕ
  pub track_namespace_prefix : List String
  pub forward : ℕ
  pub group_order : ℕ
  pub subscription_filter : Option SubscriptionFilter
  pub has_unnegotiated_range_filter : Bool
  pub fill_requested : Bool
  pub malformed_authorization_token : Bool
  pub authorization_token_cache_overflow : Bool
  pub unknown_authorization_token_alias : Bool

pub record LocationFilterForm : Type 0 where
  pub type : ℕ
  pub start_group : ℕ
  pub start_object : ℕ
  pub end_group_delta : ℕ
  pub end_object : ℕ

pub record SubscribeMessage : Type 0 where
  pub request_id : ℕ
  pub track_namespace : List String
  pub track_name : String
  pub subscriber_priority : ℕ
  pub group_order : ℕ
  pub forward : ℕ
  pub filter_type : ℕ
  pub start_group_id : ℕ
  pub start_object_id : ℕ
  pub end_group_id : ℕ
  pub end_object_id : Option ℕ
  pub delivery_timeouts : DeliveryTimeouts
  pub fill_requested : Bool
  pub location_filter : Option LocationFilterForm
  pub fill_location_filter : Option LocationFilterForm
  pub has_unnegotiated_range_filter : Bool
  pub malformed_authorization_token : Bool
  pub authorization_token_cache_overflow : Bool
  pub unknown_authorization_token_alias : Bool

pub record RequestUpdateMessage : Type 0 where
  pub request_id : ℕ
  pub existing_request_id : Option ℕ
  pub object_delivery_timeout_ms : Option ℕ
  pub subgroup_delivery_timeout_ms : Option ℕ
  pub subscriber_priority : Option ℕ
  pub forward : Option ℕ
  pub subscription_filter : Option SubscriptionFilter
  pub new_group_request : Option ℕ
  pub track_namespace_prefix : Option (List String)
  pub has_unnegotiated_range_filter : Bool
  pub has_authorization_token : Bool
  pub fill_requested : Bool

pub record SubscribeUpdateMessage : Type 0 where
  pub request_id : ℕ
  pub subscription_request_id : ℕ
  pub start_group_id : ℕ
  pub start_object_id : ℕ
  pub end_group_plus_one : ℕ
  pub subscriber_priority : ℕ
  pub forward : ℕ

pub data CmsfObjectKind : Type 0 where
  initialization metadata media : CmsfObjectKind

-- The fields of CmsfObject that decide about its delivery.
pub record CmsfObject : Type 0 where
  pub kind : CmsfObjectKind
  pub track_name : String
  pub group_id : ℕ
  pub subgroup_id : ℕ
  pub object_id : ℕ
  pub media_time_us : ℕ
