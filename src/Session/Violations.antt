-- ===== src/Session/Violations.antt =====
-- src/transport/moqt_session.cpp: how the session ends over a fault of the peer. A function that takes
-- the transport returns the codes with which it called close, in order, and its status.
use Prim.Native.String.{String}
use moqxr.Common.{
  ℕ, ◌==◌, ◌≡◌, Bool, true, false, not, none, List, [], ◌∷◌, if◌then◌else◌, Bool-cases, inl, inr,
}
use moqxr.Draft.{DraftVersion, is_draft18_or_later, is_draft23_or_later}
use moqxr.Failover.{TransportStatus, failure, no_failure, fatal}
use moqxr.Wire.Control.{control_message_exceeds_limit}

-- TransportStatus::success()
abbrev pub success : TransportStatus
success = record {
  ok = true;
  message = "";
  failure_kind = no_failure;
  migration_uri = none;
  migration_timeout_ms = none;
}

pub record Reply : Type 0 where
  pub closes : List ℕ
  pub status : TransportStatus

abbrev pub goes_on : Reply
goes_on = record { closes = []; status = success }

abbrev pub close_session : ℕ → String → Reply
close_session error_code message = record {
  closes = error_code ∷ [];
  status = failure message fatal;
}

abbrev protocol_violation_error_code : ℕ
protocol_violation_error_code = 0x3

abbrev pub unexpected_message_error_code : ℕ
unexpected_message_error_code = 0x303

abbrev pub closed_control_stream_error_code : ℕ
closed_control_stream_error_code = 0x306

abbrev field_length_exceeded_error_code : ℕ
field_length_exceeded_error_code = 0x401

-- With the fault that take_decode_fault returns.
abbrev pub protocol_violation : ℕ → String → Reply
protocol_violation fault message =
    close_session (if not (fault == 0) then fault else protocol_violation_error_code) message

-- With the fault that protocol_violation would take.
abbrev pub session_violation : DraftVersion → ℕ → ℕ → String → Reply
session_violation draft fault draft23_error_code message =
    if not (is_draft23_or_later draft)
    then protocol_violation fault message
    else close_session draft23_error_code message

unfoldable pub check_control_message_length : DraftVersion → List ℕ → Reply
check_control_message_length draft pending =
    if not (control_message_exceeds_limit pending draft)
    then goes_on
    else close_session field_length_exceeded_error_code
        "control message exceeds MAX_CONTROL_MESSAGE_SIZE"

unfoldable pub authorization_token_status : (malformed cache_overflow unknown_alias : Bool) → Reply
authorization_token_status malformed cache_overflow unknown_alias =
    if malformed
    then close_session 0x06 "malformed AUTHORIZATION_TOKEN structure"
    else if cache_overflow
    then close_session 0x13 "AUTHORIZATION_TOKEN registration exceeds the zero-byte cache"
    else if unknown_alias
    then close_session 0x17 "unregistered AUTHORIZATION_TOKEN alias"
    else goes_on

abbrev does_not_exist_request_error_code : DraftVersion → ℕ
does_not_exist_request_error_code draft = if is_draft18_or_later draft then 0x10 else 0x02

pub session_violation-ok :
    (draft : DraftVersion) (code fault : ℕ) (message : String)
    → (session_violation draft fault code message).status.ok ≡ false
session_violation-ok draft code fault message = elim (Bool-cases (is_draft23_or_later draft)) [
  | inl late ↦ rw late
  | inr early ↦ rw early
]
