-- ===== src/Wire/Requests/Decode.antt =====
-- decode_request_error of moqt_control_messages.cpp, with the loop over the details of draft 23,
-- which runs on fuel: the number of bytes of the message.
use moqxr.Common.{
  ℕ, zero, suc, ◌+◌, Bool, false, not, ◌&&◌, Option, none, some, List, ltb, ◌==◌, if◌then◌else◌,
  length, take, ◌>>=◌,
}
use moqxr.Draft.{
  DraftVersion, draft16, is_draft14, is_draft16, is_draft18_or_later, is_draft21_or_later,
  is_draft23_or_later,
}
use moqxr.Wire.Varint.{decode_varint_impl}
use moqxr.Wire.Moqint.{uses_moq_vi64, decode_moqint_impl}
use moqxr.Wire.Control.{parse_control_length_message}
use moqxr.Wire.Fields.{note_decode_fault, decode_reason_phrase}
use moqxr.Wire.Requests.{
  RequestError, request_error_type, publish_namespace_error_type, request_error_redirect,
  fault_malformed_message, decode_redirect, decode_detail,
}

-- while (offset < end), with what the rounds so far found; the outer `none` is for fuel that runs out.
unfoldable pub decode_details :
    ℕ → List ℕ → ℕ → ℕ → DraftVersion → ℕ → Option Bool → ℕ → Option (Option (Option Bool) × ℕ)
decode_details zero bytes offset end draft type redirect fault =
    if ltb offset end then none else some (some redirect, fault)
decode_details (suc fuel) bytes offset end draft type redirect fault =
    if not (ltb offset end)
    then some (some redirect, fault)
    else let (found, fault') = decode_detail bytes offset end draft type redirect fault in
      elim found [
        | none ↦ some (none, fault')
        | some (offset', type', redirect') ↦
            decode_details fuel bytes offset' end draft type' redirect' fault'
      ]

-- decode_request_error_details: the redirect that was found, or `none` where the message is refused.
-- The outer `none` is for fuel that runs out.
unfoldable pub decode_request_error_details :
    List ℕ → ℕ → ℕ → DraftVersion → ℕ → ℕ → Option (Option (Option Bool) × ℕ)
decode_request_error_details bytes offset end draft error_code fault =
    elim (decode_details (length bytes) bytes offset end draft 0 none fault) [
      | none ↦ none
      | some (none, fault') ↦ some (none, fault')
      | some (some (some named), fault') ↦ some (some (some named), fault')
      | some (some none, fault') ↦
          if error_code == request_error_redirect
          then some (none, note_decode_fault draft fault_malformed_message fault')
          else some (some none, fault')
    ]

-- The part that decode_publish_namespace_error and decode_request_error share: a reason phrase in the
-- first `end` bytes.
abbrev reason_at : List ℕ → ℕ → ℕ → DraftVersion → ℕ → Option (List ℕ × ℕ) × ℕ
reason_at bytes offset end draft fault = decode_reason_phrase (take end bytes) offset draft fault

-- The request id, the error code, the cursor behind them and the payload's end.
unfoldable pub decode_namespace_error_head : List ℕ → Option (ℕ × ℕ × ℕ × ℕ)
decode_namespace_error_head bytes = do
  (payload_offset, payload_length) ←
      parse_control_length_message bytes draft16 publish_namespace_error_type
  (request_id, offset) ← decode_varint_impl bytes payload_offset
  (error_code, offset') ← decode_varint_impl bytes offset
  some (request_id, error_code, offset', payload_offset + payload_length)

-- The request id, the error code and the reason.
unfoldable pub decode_publish_namespace_error : List ℕ → Option (ℕ × ℕ × List ℕ) × ℕ
decode_publish_namespace_error bytes = elim (decode_namespace_error_head bytes) [
  | none ↦ (none, 0)
  | some (request_id, error_code, offset, end) ↦
      let (reason, fault) = reason_at bytes offset end draft16 0 in
      (
        elim reason [
          | none ↦ none
          | some (text, offset') ↦
              if offset' == end then some (request_id, error_code, text) else none
        ],
        fault,
      )
]

abbrev pub error_of : ℕ → ℕ → ℕ → List ℕ → Bool → RequestError
error_of request_id error_code retry_interval reason named = record {
  request_id = request_id;
  error_code = error_code;
  retry_interval = retry_interval;
  reason = reason;
  redirect_has_track_name = named;
}

abbrev named_of : Option Bool → Bool
named_of none = false
named_of (some named) = named

-- What follows the reason phrase: whether the message is refused, and whether its redirect names a
-- track.
unfoldable pub decode_error_end :
    List ℕ → ℕ → ℕ → DraftVersion → ℕ → ℕ → ℕ → Option (Option Bool × ℕ)
decode_error_end bytes offset end draft error_code reason_size fault =
    if is_draft16 draft
    then some ((if offset == end then some false else none), fault)
    else if is_draft21_or_later draft && ltb 1024 reason_size
    then some (none, fault)
    else if is_draft23_or_later draft
    then elim (decode_request_error_details bytes offset end draft error_code fault) [
      | none ↦ none
      | some (none, fault') ↦ some (none, fault')
      | some (some redirect, fault') ↦ some (some (named_of redirect), fault')
    ]
    else if offset == end
    then some (some false, fault)
    else let (found, fault') =
        decode_redirect bytes offset end draft (is_draft18_or_later draft) fault in
      some (
        elim found [
          | none ↦ none
          | some (offset', named) ↦ if offset' == end then some false else none
        ],
        fault',
      )

-- The request id, the error code, the retry interval, the cursor behind them and the payload's end.
unfoldable pub decode_error_head : List ℕ → DraftVersion → Option (ℕ × ℕ × ℕ × ℕ × ℕ)
decode_error_head bytes draft = do
  (payload_offset, payload_length) ← parse_control_length_message bytes draft request_error_type
  (request_id, offset) ←
      if uses_moq_vi64 draft
      then some (0, payload_offset)
      else decode_moqint_impl bytes payload_offset draft
  (error_code, offset') ← decode_moqint_impl bytes offset draft
  (retry_interval, offset'') ← decode_moqint_impl bytes offset' draft
  some (request_id, error_code, retry_interval, offset'', payload_offset + payload_length)

unfoldable pub decode_error_body : List ℕ → DraftVersion → Option (Option RequestError × ℕ)
decode_error_body bytes draft = elim (decode_error_head bytes draft) [
  | none ↦ some (none, 0)
  | some (request_id, error_code, retry_interval, offset, end) ↦
      let (reason, fault) = reason_at bytes offset end draft 0 in
      elim reason [
        | none ↦ some (none, fault)
        | some (text, offset') ↦
            elim (decode_error_end bytes offset' end draft error_code (length text) fault) [
              | none ↦ none
              | some (none, fault') ↦ some (none, fault')
              | some (some named, fault') ↦
                  some (some (error_of request_id error_code retry_interval text named), fault')
            ]
      ]
]

unfoldable pub decode_request_error : List ℕ → DraftVersion → Option (Option RequestError × ℕ)
decode_request_error bytes draft =
    if not (is_draft14 draft)
    then decode_error_body bytes draft
    else let (decoded, fault) = decode_publish_namespace_error bytes in
      some (
        elim decoded [
          | none ↦ none
          | some (request_id, error_code, reason) ↦
              some (error_of request_id error_code 0 reason false)
        ],
        fault,
      )
