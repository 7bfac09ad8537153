-- ===== src/Session/Drafts.antt =====
-- What src/transport/moqt_session.cpp makes depend on the draft.
use moqxr.Common.{
  ℕ, ◌/◌, ◌%◌, Bool, true, false, not, ◌&&◌, ◌||◌, Option, none, some, List, leb, ◌==◌,
  if◌then◌else◌, text_key,
}
use moqxr.Draft.{
  DraftVersion, is_draft17, is_draft18_or_later, is_draft21_or_later, is_draft23_or_later,
}
use moqxr.Wire.Varint.{decode_varint_impl}
use moqxr.Wire.Vi64.{decode_vi64_impl}
use moqxr.Session.Filters.{uses_priority_scheduler}
use moqxr.Session.Subscriptions.{SubscribeMessage, SubscribeTracksMessage, SubscriptionFilter}

abbrev pub uses_peer_max_request_id : DraftVersion → Bool
uses_peer_max_request_id draft = not (is_draft17 draft) && not (is_draft18_or_later draft)

abbrev pub uses_request_streams : DraftVersion → Bool
uses_request_streams draft = is_draft17 draft || is_draft18_or_later draft

abbrev subscription_forwards_objects : DraftVersion → ℕ → Bool
subscription_forwards_objects draft forward =
    not (uses_priority_scheduler draft) || not (forward == 0)

-- The decoder of the session; decode_vi64 and decode_varint only call the two that it calls here.
unfoldable pub decode_moqint : List ℕ → ℕ → DraftVersion → Option (ℕ × ℕ)
decode_moqint bytes offset draft =
    if uses_request_streams draft
    then decode_vi64_impl bytes offset
    else decode_varint_impl bytes offset

-- The masks 0x06 and 0x90 are taken apart into their bits.
unfoldable pub is_known_peer_unidirectional_stream_type : ℕ → DraftVersion → Bool
is_known_peer_unidirectional_stream_type type draft =
    if type == 0x05 || type == 0x2f00 || type == 0x132b3e28
    then true
    else if not (is_draft18_or_later draft)
    then false
    else if is_draft23_or_later draft && type / 2 % 4 == 3
    then false
    else leb type 0x7f && type / 128 % 2 == 0 && type / 16 % 2 == 1

abbrev subscribe_tracks_overlap_error_code : DraftVersion → ℕ
subscribe_tracks_overlap_error_code draft = if is_draft23_or_later draft then 0x3 else 0x30

abbrev serves_catalog_fills : DraftVersion → SubscribeMessage → Bool
serves_catalog_fills draft subscribe =
    is_draft21_or_later draft && text_key.beq subscribe.track_name "catalog"

abbrev declines_filter : Option SubscriptionFilter → Bool
declines_filter none = false
declines_filter (some filter) = not (filter.filter_type == 0) && not (filter.filter_type == 0x02)

abbrev declines_subscribe_tracks_filter : DraftVersion → SubscribeTracksMessage → Bool
declines_subscribe_tracks_filter draft subscribe_tracks =
    is_draft21_or_later draft
    && (subscribe_tracks.has_unnegotiated_range_filter
        || declines_filter subscribe_tracks.subscription_filter)
