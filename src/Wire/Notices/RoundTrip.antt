-- ===== src/Wire/Notices/RoundTrip.antt =====
-- decode_goaway_message of moqt_control_messages.cpp on a GOAWAY as a peer writes it.
use moqxr.Common.{
  ℕ, ◌+◌, ◌≤◌, ◌<◌, ◌≡◌, refl, sym, ap, ◌∙◌, true, some, List, [], ◌++◌, arith, length,
  length-append, append-nil,
}
use moqxr.Draft.{DraftVersion, is_draft22_or_later}
use moqxr.Wire.Moqint.{push_moqint, moqint_limit}
use moqxr.Wire.Moqint.RoundTrip.{
  moqint_bytes, moqint_bytes_size, push_moqint-eq, Stands, Stands-next, decode_moqint-Stands,
}
use moqxr.Wire.Control.{finish_message}
use moqxr.Wire.Control.Lengths.{length-Stands}
use moqxr.Wire.Control.Splitting.{header, finish_message-eq, parse-finish_message}
use moqxr.Wire.Fields.{append_string}
use moqxr.Wire.Fields.Strings.{
  string_bytes, string_size, append_string-eq, string_length-Stands, string_fits, string_value,
  string_end,
}
use moqxr.Wire.Notices.{goaway_type, decode_goaway_body, decode_goaway_uri, decode_goaway_message}

-- The payload of a message stands behind its header.
pub payload-Stands :
    (draft : DraftVersion) (type : ℕ) (payload : List ℕ) (encodable : type < moqint_limit draft)
    (short : length payload ≤ 65535)
    → Stands
        (finish_message draft type payload)
        (length (header draft type payload encodable short))
        payload
payload-Stands draft type payload encodable short = (
  header draft type payload encodable short,
  finish_message-eq draft type payload encodable short,
  refl,
)

module _ (draft : DraftVersion) (uri : List ℕ) (timeout_ms : ℕ)
    (late : is_draft22_or_later draft ≡ true) (timeout_fits : timeout_ms < moqint_limit draft)
    (short : length uri ≤ 8192) where
  goaway_payload : List ℕ
  goaway_payload = string_bytes draft uri ++ moqint_bytes draft timeout_ms

  uri_fits : length uri < moqint_limit draft
  uri_fits = ground arith

  type_fits : goaway_type < moqint_limit draft
  type_fits = ground arith

  payload_size : length goaway_payload ≤ 65535
  unfolding goaway_payload
  payload_size = omega (
    arith,
    string_size draft uri,
    moqint_bytes_size draft timeout_ms,
    length-append (string_bytes draft uri) (moqint_bytes draft timeout_ms),
  )

  message : List ℕ
  message = finish_message draft goaway_type goaway_payload

  start : ℕ
  start = length (header draft goaway_type goaway_payload type_fits payload_size)

  at_uri : Stands message start (string_bytes draft uri ++ moqint_bytes draft timeout_ms)
  unfolding message start goaway_payload
  at_uri = payload-Stands draft goaway_type goaway_payload type_fits payload_size

  at_timeout :
      Stands message (start + length (string_bytes draft uri)) (moqint_bytes draft timeout_ms ++ [])
  at_timeout =
      let (front, e, len) =
        Stands-next message start (string_bytes draft uri) (moqint_bytes draft timeout_ms) at_uri in
      (front, e ∙ ap (◌++◌ front) (sym (append-nil (moqint_bytes draft timeout_ms))), len)

  goaway_read :
      decode_goaway_message message draft
      ≡ (some (record { new_session_uri = uri; timeout_ms = timeout_ms }), 0)
  unfolding decode_goaway_message decode_goaway_uri decode_goaway_body message start
  goaway_read = ground (
    arith,
    late,
    (parse-finish_message draft goaway_type goaway_payload type_fits payload_size).0,
    string_length-Stands draft message start uri (moqint_bytes draft timeout_ms) uri_fits at_uri,
    string_fits draft message start uri (moqint_bytes draft timeout_ms) uri_fits at_uri,
    string_value draft message start uri (moqint_bytes draft timeout_ms) uri_fits at_uri,
    string_end draft message start uri (moqint_bytes draft timeout_ms) uri_fits at_uri,
    decode_moqint-Stands draft message (start + length (string_bytes draft uri)) timeout_ms []
        timeout_fits at_timeout,
    length-Stands message (start + length (string_bytes draft uri))
        (moqint_bytes draft timeout_ms ++ []) at_timeout,
    length-append (moqint_bytes draft timeout_ms) [],
  )

  payload-eq : push_moqint (append_string [] draft uri) draft timeout_ms ≡ goaway_payload
  unfolding goaway_payload
  payload-eq =
      rw (append_string-eq [] draft uri uri_fits)
        (push_moqint-eq draft (string_bytes draft uri) timeout_ms timeout_fits)

  -- From draft 22 on, a GOAWAY with a URI of at most 8192 bytes and a timeout that the draft can carry, as
  -- a peer writes it with append_string, append_moqint and the frame of every message, is read by
  -- decode_goaway_message with that URI and timeout, and without a fault.
  pub decode_goaway-finish_message :
      decode_goaway_message
        (finish_message draft goaway_type
          (push_moqint (append_string [] draft uri) draft timeout_ms))
        draft
      ≡ (some (record { new_session_uri = uri; timeout_ms = timeout_ms }), 0)
  unfolding message
  decode_goaway-finish_message = rw payload-eq goaway_read
