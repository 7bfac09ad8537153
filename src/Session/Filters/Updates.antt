-- ===== src/Session/Filters/Updates.antt =====
-- What the updates of src/transport/moqt_session.cpp do to the objects that a subscription gets.
use moqxr.Common.{◌≤◌, ◌≡◌, true, false, arith}
use moqxr.Session.Subscriptions.{
  SubscribeMessage, RequestUpdateMessage, SubscribeUpdateMessage, CmsfObject,
}
use moqxr.Session.Filters.{
  object_matches_filter, starts_at, apply_request_update, request_update_extends_end,
  apply_subscribe_update, whole_group,
}

-- An accepted SUBSCRIBE_UPDATE only narrows: whatever object matches the filter afterwards did so
-- before.
pub apply_subscribe_update-narrows :
    (object : CmsfObject) (subscribe : SubscribeMessage) (update : SubscribeUpdateMessage)
    → (apply_subscribe_update subscribe update).0 ≡ true
    → object_matches_filter object (apply_subscribe_update subscribe update).1 ≡ true
    → object_matches_filter object subscribe ≡ true
unfolding apply_subscribe_update object_matches_filter
apply_subscribe_update-narrows object subscribe update accepted matches = ground arith

-- Where request_update_extends_end does not report that the end moves out, an object that matches
-- the updated filter, and does not lie before the old start, matched the old filter.
pub extends_end_sound :
    (object : CmsfObject) (subscribe : SubscribeMessage) (update : RequestUpdateMessage)
    → object.object_id ≤ whole_group
    → request_update_extends_end subscribe update ≡ false
    → object_matches_filter object (apply_request_update subscribe update) ≡ true
    → starts_at object subscribe ≡ true
    → object_matches_filter object subscribe ≡ true
unfolding apply_request_update request_update_extends_end object_matches_filter
extends_end_sound object subscribe update u keeps matches starts = ground arith
