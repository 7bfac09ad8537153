-- ===== src/Tests/Session.antt =====
-- Parts of the session on concrete input.
pub mod Subscriptions
pub mod Streams
pub mod Subgroups
use moqxr.Common.{
  ℕ, zero, suc, ◌+◌, ◌*◌, ◌%◌, ◌^◌, ◌≤◌, ◌<◌, ◌≡◌, ◌↔◌, refl, Bool, true, false, not, ◌&&◌, ◌||◌,
  Option, none, some, List, [], ◌∷◌, ◌++◌, arith, ltb, leb, ◌==◌, if◌then◌else◌, length, All,
}
use moqxr.Common.Bytes.{IsU64}
use moqxr.Common.Texts.{Text}
use moqxr.Draft.{draft16, draft18, draft22}
use moqxr.Common.Assoc
use moqxr.Common.Assoc.{lookup}
use moqxr.Session.Completed.{
  insert, previous_range, next_range, set_last, erase_range, emplace_range, empty_tracker, contains,
  storage_entry_count,
}
use moqxr.Session.Completed.Runs.{insert_all, insert_all-exact, insert_all-not_exhausted, mem_pair}
use moqxr.Session.Priority.{CandidatePriority, precedes, precedes_cross_request}
use moqxr.Session.Priority.Order.{
  lex_less, keys, keys_cross_request, precedes-lex, precedes_cross_request-weak,
}
use moqxr.Session.RequestIds.{new, validate}
use moqxr.Session.RequestIds.Sequence.{accepts, odds_from, AreNew, accepts-draft16, accepts-late}
use moqxr.Session.Namespaces.{namespace_prefix_matches, split_track_namespace_components}
use moqxr.Session.Namespaces.Matching.{Begins, namespace_prefix_matches_iff}
use moqxr.Failover.{retryable}
use moqxr.Wire.Vi64.{decode_vi64_impl, vi64_prefix}
use moqxr.Wire.Moqint.{decode_moqint_impl}
use moqxr.Wire.Control.{
  control_message_exceeds_limit, next_control_message, size_by_length, read_control_length,
  parse_control_length_message,
}
use moqxr.Wire.Notices.{decode_goaway_message, decode_goaway_uri, decode_goaway_body}
use moqxr.Session.Drafts.{decode_moqint}
use moqxr.Session.Violations.{check_control_message_length}
use moqxr.Session.ControlReader.{
  Read, chunk, no_data, Reading, poll, poll_loop, poll_round, drain, take_message, is_goaway,
}

-- Groups of the subgroups 0 and 1; the third joins two ranges.
abbrev ended : List (ℕ × ℕ)
ended = (5, 0) ∷ (7, 0) ∷ (6, 0) ∷ (9, 1) ∷ []

ended-U64 : All (λ e. IsU64 e.0) ended
ended-U64 = omega arith

insert_all-exact_example : contains (insert_all empty_tracker ended) 6 0 ≡ mem_pair 6 0 ended
insert_all-exact_example =
    insert_all-exact ended 6 0 ended-U64 (insert_all-not_exhausted ended ended-U64 (omega arith))

joined_test : storage_entry_count (insert_all empty_tracker ended) ≡ 4
unfolding storage_entry_count empty_tracker insert previous_range next_range set_last erase_range
    emplace_range lookup Assoc.insert
joined_test = refl

abbrev video : CandidatePriority
video = record {
  subscriber_priority = 128;
  publisher_priority = 64;
  media_time_us = 40000;
  request_fairness_round = 3;
  group_order = 2;
  group_id = 9;
  subgroup_id = 0;
  object_id = 1;
  request_id = 1;
  plan_index = 12;
}

abbrev audio : CandidatePriority
audio = record video { media_time_us = 20000; request_id = 3; request_fairness_round = 5 }

abbrev late_audio : CandidatePriority
late_audio = record audio { media_time_us = 60000 }

precedes-lex_example :
    (precedes video audio ≡ lex_less (keys video) (keys audio))
    × (precedes_cross_request video audio
        ≡ lex_less (keys_cross_request video) (keys_cross_request audio))
precedes-lex_example = precedes-lex video audio (omega arith) (omega arith)

audio_first : precedes_cross_request audio video ≡ true
unfolding precedes_cross_request
audio_first = refl

video_first_test : precedes video audio ≡ true
unfolding precedes
video_first_test = refl

precedes_cross_request-weak_example :
    (precedes_cross_request video audio ≡ false)
    × ((precedes_cross_request audio late_audio || precedes_cross_request late_audio video) ≡ true)
precedes_cross_request-weak_example =
    precedes_cross_request-weak audio video late_audio (omega arith) (omega arith) (omega arith)
      audio_first

abbrev three_ids : List ℕ
three_ids = 1 ∷ 3 ∷ 5 ∷ []

accepts-draft16_example :
    (accepts (new draft16 100) three_ids ≡ true)
    ↔ ((three_ids ≡ odds_from 1 three_ids) × (2 * length three_ids ≤ 100))
accepts-draft16_example = accepts-draft16 100 three_ids (omega arith)

skipped_test : accepts (new draft16 100) (1 ∷ 5 ∷ []) ≡ false
unfolding accepts validate
skipped_test = refl

two_odds_test : (accepts (new draft18 0) (5 ∷ 1 ∷ []) ≡ true) ↔ AreNew [] (5 ∷ 1 ∷ [])
two_odds_test = accepts-late draft18 0 (5 ∷ 1 ∷ []) refl

-- a/b
abbrev expected : Text
expected = 97 ∷ 47 ∷ 98 ∷ []

namespace_prefix_matches_iff_example :
    (namespace_prefix_matches ((97 ∷ []) ∷ []) expected false ≡ true)
    ↔ Begins false ((97 ∷ []) ∷ []) (split_track_namespace_components expected)
namespace_prefix_matches_iff_example = namespace_prefix_matches_iff ((97 ∷ []) ∷ []) expected false

prefix_test : namespace_prefix_matches ((97 ∷ []) ∷ []) expected false ≡ true
unfolding namespace_prefix_matches
prefix_test = refl

abbrev idle : Reading
idle = record { goaway = none; pending = []; fault = 0 }

-- A GOAWAY with an empty URI and the timeout 7, in two chunks.
abbrev goaway_reads : List Read
goaway_reads = chunk (0x10 ∷ 0 ∷ []) false ∷ chunk (2 ∷ 0 ∷ 7 ∷ []) false ∷ no_data ∷ []

-- The migration is asked for as soon as the GOAWAY is whole.
migration_test :
    poll draft22 goaway_reads idle
    ≡ some (
      record {
        closes = [];
        status = record {
          ok = false;
          message = "session migration requested";
          failure_kind = retryable;
          migration_uri = some [];
          migration_timeout_ms = some 7;
        };
      },
      record {
        goaway = some (record { new_session_uri = []; timeout_ms = 7 });
        pending = [];
        fault = 0;
      },
    )
unfolding poll poll_loop poll_round check_control_message_length control_message_exceeds_limit drain
    next_control_message decode_moqint_impl decode_vi64_impl vi64_prefix size_by_length
    read_control_length take_message is_goaway decode_moqint decode_goaway_message
    parse_control_length_message decode_goaway_uri decode_goaway_body
migration_test = refl
