-- ===== src/Lib.antt =====
-- moqxr: a publisher of media over QUIC, in C++. This library models the parts of it that keep state
-- or bytes of their own: the wire format of its control messages, what its session decides about
-- requests, subscriptions and the order of objects, the two queues in which media waits, the
-- deadlines of its streams, the failover between endpoints, the timestamps of an input that is played
-- in a loop, the boxes of its input files, and some rules of its transports.
--
-- How the parts work together. A live source pushes media fragments into a LiveMediaQueue, from which
-- the publisher pops them; when the queue is over its limits it sheds what stands before a keyframe,
-- or gives the source up. A file is cut along its boxes, and when it starts again the timestamps of
-- its objects are moved on. The session writes control messages, whose framing depends on the draft
-- that was agreed on, and reads those of the peer from its control stream. It checks the ids of the
-- peer's requests, matches namespaces and filters, sends the objects of all subscriptions in one
-- order of priority, remembers which subgroups are complete, and puts the bytes of media objects into
-- a PendingMediaQueue, which holds them for each stream until the network takes them. A
-- SubgroupDeadlineTracker says which streams are to be reset. All of it happens in an attempt at one
-- endpoint; publish_with_failover decides which attempt comes next.
--
-- Which file models what:
--   Common: Boolean tests, lists, association lists and sets over native numbers; 64-bit words; texts
--     as lists of their bytes.
--   Draft: include/openmoq/publisher/moq_draft.h, DraftVersion and the order of the drafts.
--   Wire: src/transport/moqt_control_messages.cpp.
--     Cursor: `fits`, and the loop that both integer decoders run.
--     Varint: append_varint, decode_varint_impl, encode_varint.
--     Vi64: append_vi64, decode_vi64_impl.
--     Moqint: append_moqint, decode_moqint_impl, which choose between the two by the draft.
--     Control: append_control_length, read_control_length, the parsers of a framed message,
--       next_control_message, and the lines with which every encoder ends (finish_message).
--     Fields: strings, track namespaces, reason phrases and the recorded decode fault.
--     Requests: encode_request_error_message and decode_request_error.
--     Objects: encode_subgroup_header, encode_subgroup_object and serialize_object_properties;
--       Objects/Reader is a description of their format from the side of a subscriber, by the texts
--       of the drafts under docs.
--     Notices: decode_goaway_message and encode_namespace_notification.
--   Media/Pending: PendingMediaQueue of src/transport/pending_media_queue.h. `contents` is its
--     abstract view: for each stream the bytes that are still to be sent.
--   Media/Deadlines: SubgroupDeadlineTracker of the same file; `deadline_of` is its abstract view.
--   Media/Live: LiveMediaQueue and LiveSrtQueueAdapter of src/live_media_queue.h; Media/Live/Push has
--     the methods that change the queue.
--   Failover: publish_with_failover of src/endpoint_failover.cpp, with TransportStatus of
--     include/openmoq/publisher/transport/publisher_transport.h. `Schedule` is its abstract
--     description: which attempt may follow which.
--     Replay: ReplayableLiveObjectSource of the same file, which carries objects into the next attempt.
--   Session: src/transport/moqt_session.cpp.
--     Completed: BoundedSubgroupCompletionTracker; its abstract view is the list of what was inserted.
--     Priority: CandidatePriority with its two comparators, and object_transport_priority.
--     Violations: the functions that close a session.
--     RequestIds: PeerRequestIdValidator.
--     Namespaces: namespace_matches, namespace_prefix_matches, namespace_prefixes_overlap and
--       split_track_namespace_components.
--     Subscriptions: the messages that describe a subscription, of
--       include/openmoq/publisher/transport/moqt_control_messages.h, and CmsfObject.
--     Filters: object_matches_filter, live_object_matches_request_union and the updates.
--     Timeouts: deadline_after and the delivery timeouts of a track.
--     Drafts: what depends on the draft, and the session's own decode_moqint.
--     ControlReader: SessionControlReader.
--     PeerStreams: PeerUnidirectionalStreams.
--     Subgroups: SubgroupSenderState without the calls that write objects.
--     Generations: GenerationAvailability, and the search for objects in a plan.
--     Answers: refused requests and updates, GOAWAY on a request, UNSUBSCRIBE, LargestObjectByTrack.
--   Loop: src/loop_timestamps.cpp: the integers of LOCMAF (Varint), loop_offset_ticks and
--     rebase_loc_timestamps (Offsets), rebase_locmaf_timestamps (Locmaf).
--   Mp4/Boxes: parse_mp4_boxes of src/mp4_box.cpp, with Mp4Box of include/openmoq/publisher/mp4_box.h.
--   Transport: src/transport/webtransport_error_codes.h (ErrorCodes), picoquic_close_drain.h
--     (CloseDrain), webtransport_requirements.h (Requirements) and peer_close.h (PeerClose).
--   Tests: runs on concrete inputs.
--
-- How the code is read. A span of bytes is the list of its numbers and a cursor an offset into it; a
-- decoder returns the value with the new cursor, or `none`. A method returns its result with the new
-- state. size_t and uint64_t are words of 64 bits: a sum or a difference that the source leaves
-- unguarded is taken modulo 2^64 (add64, sub64, `% u64_mod`). A bit-or of values that share no bit is
-- their sum, a shift is a division or a product, and a mask of low bits is a remainder. Sets and maps
-- with texts or stream numbers as keys are lists with one entry to a key; the ordered map of
-- deadlines and the ordered set of timestamps are ascending lists. Durations and points in time are
-- counts of ticks, so a duration limit is not negative.
--
-- Bounds. Most loops are over a list or a count that the source also counts. The others take fuel.
-- The loop over the details of a refusal has the number of bytes of the message, of which each round
-- takes at least one. parse_mp4_boxes has one more than the number of bytes: a box takes eight. The
-- loops of rebase_locmaf_timestamps take their fuel as an argument, since they need not end. A poll
-- of the control stream has two rounds over the messages behind each read: the first may take a
-- GOAWAY, the second returns or waits. Buffers are shorter than 2^62 bytes where a theorem says so. A
-- fragment's times are 64-bit numbers, which is the range of their C++ type.
--
-- Not modelled: the bodies of the other control messages; the rest of the session, which is the
-- calls of SubgroupSenderState that write objects, its discovery requests, its states of requests and
-- its I/O against a transport; rebase_cmaf_timestamps, which is an argument of
-- rebase_locmaf_timestamps; the transports (picoquic, WebTransport, libmoq, TLS), which call libraries
-- that the repository does not hold; the ingest threads; the fields of MP4 boxes, the segmenter and
-- the packagers; catalogs, URLs and command lines; access tokens. Running out of memory is not
-- modelled. The callback of publish_with_failover is a parameter: an answer for every endpoint and
-- number of attempt. What picoquic's streams hold is an argument of the close drain, what a live
-- source answers is one of a replayable source, and what the transport accepts, reads and says of its
-- streams, and what the clock shows, are arguments of the parts of the session.
pub mod Common
pub mod Draft
pub mod Wire
pub mod Session
pub mod Media
pub mod Loop
pub mod Mp4
pub mod Failover
pub mod Transport
pub mod Tests
