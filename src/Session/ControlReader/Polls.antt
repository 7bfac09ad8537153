-- ===== src/Session/ControlReader/Polls.antt =====
-- What a poll of SessionControlReader (src/transport/moqt_session.cpp) answers, whatever is read.
use moqxr.Common.{ℕ, ◌≡◌, true, false, Option, none, some, List, [], ◌∷◌, ◌++◌}
use moqxr.Draft.{DraftVersion}
use moqxr.Failover.{TransportStatus, retryable}
use moqxr.Wire.Control.{next_control_message, control_message_exceeds_limit}
use moqxr.Wire.Notices.{GoawayMessage}
use moqxr.Session.Violations.{Reply, success}
use moqxr.Session.ControlReader.{Read, chunk, fails, Reading}
use moqxr.Session.ControlReader.Drains.{IsClosed, may_take, Keeps}

-- The answer of a poll, and why it is given, by the reads and what the reader has behind them.
pub data IsAnswer (draft : DraftVersion) (reads : List Read) (r : Reading) (reply : Reply)
    : Type 0 where
  -- The message that waits is too long.
  too_long :
      control_message_exceeds_limit r.pending draft ≡ true
      → IsClosed reply
      → IsAnswer draft reads r reply
  -- A whole message waits that is no GOAWAY, cannot be read, or comes when a GOAWAY is held.
  refused :
      (size : ℕ)
      → next_control_message r.pending draft ≡ some size
      → may_take draft size r ≡ false
      → IsClosed reply
      → IsAnswer draft reads r reply
  -- The peer has ended its control stream.
  ended :
      (before after : List Read) (bytes : List ℕ)
      → reads ≡ before ++ chunk bytes true ∷ after
      → IsClosed reply
      → IsAnswer draft reads r reply
  -- The transport could not read.
  failed :
      (before after : List Read) (status : TransportStatus)
      → reads ≡ before ++ fails status ∷ after
      → reply ≡ record { closes = []; status = record status { ok = false } }
      → IsAnswer draft reads r reply
  quiet :
      next_control_message r.pending draft ≡ none
      → r.goaway ≡ none
      → reply ≡ record { closes = []; status = success }
      → IsAnswer draft reads r reply
  migration :
      (message : GoawayMessage)
      → next_control_message r.pending draft ≡ none
      → r.goaway ≡ some message
      → reply ≡ record {
        closes = [];
        status = record {
          ok = false;
          message = "session migration requested";
          failure_kind = retryable;
          migration_uri = some message.new_session_uri;
          migration_timeout_ms = some message.timeout_ms;
        };
      }
      → IsAnswer draft reads r reply

-- A poll answers, and keeps a GOAWAY that is held.
abbrev pub Polled :
    DraftVersion → Option GoawayMessage → List Read → Option (Reply × Reading) → Type 0
Polled draft old reads none = ⊥
Polled draft old reads (some (reply, r)) = Keeps old r.goaway × IsAnswer draft reads r reply
