-- ===== src/Wire/Requests/RoundTrip.antt =====
-- encode_request_error_message and decode_request_error of moqt_control_messages.cpp against each
-- other.
use moqxr.Common.{
  ℕ, zero, suc, ◌+◌, ◌≤◌, ◌<◌, ◌≡◌, refl, sym, ap, ◌∙◌, Bool, true, false, not, ◌||◌, Option, none,
  some, List, [], ◌++◌, arith, ◌==◌, if◌then◌else◌, length, take, length-append, append-nil,
  append_assoc,
}
use moqxr.Common.{take-length}
use moqxr.Draft.{DraftVersion, is_draft14, is_draft23_or_later}
use moqxr.Wire.Moqint.{uses_moq_vi64, decode_moqint_impl, moqint_limit}
use moqxr.Wire.Moqint.RoundTrip.{
  moqint_bytes, moqint_bytes_size, push_moqint-eq, Stands, Stands-next, decode_moqint-Stands,
}
use moqxr.Wire.Control.{finish_message, parse_control_length_message}
use moqxr.Wire.Control.Splitting.{header, finish_message-eq, parse-finish_message}
use moqxr.Wire.Fields.{decode_reason_phrase}
use moqxr.Wire.Fields.Strings.{string_bytes, append_string-eq, string_size, decode_reason-Stands}
use moqxr.Wire.Requests.{
  request_error_type, request_error_redirect, append_request_id, encode_request_error,
  encode_request_error_message,
}
use moqxr.Wire.Requests.Decode.{
  decode_details, decode_request_error_details, decode_error_end, decode_error_head,
  decode_error_body, decode_request_error, error_of,
}

details-end :
    (fuel : ℕ) (bytes : List ℕ) (end : ℕ) (draft : DraftVersion) (type : ℕ) (redirect : Option Bool)
    (fault : ℕ)
    → decode_details fuel bytes end end draft type redirect fault ≡ some (some redirect, fault)
unfolding decode_details
details-end zero bytes end draft type redirect fault = ground arith
details-end (suc fuel) bytes end draft type redirect fault = ground arith

-- A message that ends with its reason phrase.
error_end-end :
    (draft : DraftVersion) (bytes : List ℕ) (end error_code reason_size fault : ℕ)
    → reason_size ≤ 1024
    → not (is_draft23_or_later draft) || not (error_code == request_error_redirect) ≡ true
    → decode_error_end bytes end end draft error_code reason_size fault ≡ some (some false, fault)
unfolding decode_error_end decode_request_error_details
error_end-end draft bytes end error_code reason_size fault short code =
    ground (arith, details-end (length bytes) bytes end draft 0 none fault)

module _ (draft : DraftVersion) (request_id error_code retry_interval : ℕ) (reason : List ℕ)
    (id_fits : request_id < moqint_limit draft) (code_fits : error_code < moqint_limit draft)
    (retry_fits : retry_interval < moqint_limit draft) (short : length reason ≤ 1024) where
  id_bytes : List ℕ
  id_bytes = if uses_moq_vi64 draft then [] else moqint_bytes draft request_id

  payload : List ℕ
  payload =
      id_bytes
      ++ (moqint_bytes draft error_code
          ++ (moqint_bytes draft retry_interval ++ string_bytes draft reason))

  reason_fits : length reason < moqint_limit draft
  reason_fits = ground arith

  type_fits : request_error_type < moqint_limit draft
  type_fits = ground arith

  id-eq : append_request_id [] draft request_id ≡ id_bytes
  unfolding append_request_id id_bytes
  id-eq = ground (arith, push_moqint-eq draft [] request_id id_fits)

  encode-eq :
      encode_request_error draft request_id error_code retry_interval reason
      ≡ finish_message draft request_error_type payload
  unfolding encode_request_error payload
  encode-eq =
      rw
        (
          id-eq,
          push_moqint-eq draft id_bytes error_code code_fits,
          push_moqint-eq draft (id_bytes ++ moqint_bytes draft error_code) retry_interval
              retry_fits,
          append_string-eq
              ((id_bytes ++ moqint_bytes draft error_code) ++ moqint_bytes draft retry_interval)
              draft reason reason_fits,
          append_assoc,
          append_assoc,
        )
        refl

  payload_size : length payload ≤ 65535
  unfolding payload id_bytes
  payload_size = ground (
    arith,
    moqint_bytes_size draft request_id,
    moqint_bytes_size draft error_code,
    moqint_bytes_size draft retry_interval,
    string_size draft reason,
    length-append (moqint_bytes draft retry_interval) (string_bytes draft reason),
    length-append (moqint_bytes draft error_code)
        (moqint_bytes draft retry_interval ++ string_bytes draft reason),
    length-append id_bytes (
        moqint_bytes draft error_code
        ++ (moqint_bytes draft retry_interval ++ string_bytes draft reason)),
  )

  message : List ℕ
  message = finish_message draft request_error_type payload

  start : ℕ
  start = length (header draft request_error_type payload type_fits payload_size)

  at_payload : Stands message start payload
  unfolding message start
  at_payload = (
    header draft request_error_type payload type_fits payload_size,
    finish_message-eq draft request_error_type payload type_fits payload_size,
    refl,
  )

  parsed :
      parse_control_length_message message draft request_error_type ≡ some (start, length payload)
  unfolding message start
  parsed = (parse-finish_message draft request_error_type payload type_fits payload_size).0

  abbrev after_id : ℕ
  after_id = start + length id_bytes

  abbrev after_code : ℕ
  after_code = after_id + length (moqint_bytes draft error_code)

  abbrev after_retry : ℕ
  after_retry = after_code + length (moqint_bytes draft retry_interval)

  at_code : Stands message after_id (
      moqint_bytes draft error_code
      ++ (moqint_bytes draft retry_interval ++ string_bytes draft reason))
  unfolding payload
  at_code = Stands-next message start id_bytes _ at_payload

  at_retry :
      Stands message after_code (moqint_bytes draft retry_interval ++ string_bytes draft reason)
  at_retry = Stands-next message after_id (moqint_bytes draft error_code) _ at_code

  at_reason : Stands message after_retry (string_bytes draft reason ++ [])
  at_reason =
      let (front, e, len) =
        Stands-next message after_code (moqint_bytes draft retry_interval) _ at_retry in
      (front, e ∙ ap (◌++◌ front) (sym (append-nil (string_bytes draft reason))), len)

  id_read :
      (if uses_moq_vi64 draft then some (0, start) else decode_moqint_impl message start draft)
      ≡ some ((if uses_moq_vi64 draft then 0 else request_id), after_id)
  unfolding id_bytes payload
  id_read = ground (
    arith,
    decode_moqint-Stands draft message start request_id
        (moqint_bytes draft error_code
          ++ (moqint_bytes draft retry_interval ++ string_bytes draft reason))
        id_fits,
    at_payload,
  )

  whole_end : start + length payload ≡ length message
  unfolding message start
  whole_end = omega (
    arith,
    ap length (finish_message-eq draft request_error_type payload type_fits payload_size),
    length-append (header draft request_error_type payload type_fits payload_size) payload,
  )

  reason_end : after_retry + length (string_bytes draft reason) ≡ start + length payload
  unfolding payload
  reason_end = omega (
    arith,
    length-append (moqint_bytes draft retry_interval) (string_bytes draft reason),
    length-append (moqint_bytes draft error_code)
        (moqint_bytes draft retry_interval ++ string_bytes draft reason),
    length-append id_bytes (
        moqint_bytes draft error_code
        ++ (moqint_bytes draft retry_interval ++ string_bytes draft reason)),
  )

  reason_read :
      decode_reason_phrase (take (start + length payload) message) after_retry draft 0
      ≡ (some (reason, start + length payload), 0)
  reason_read =
      rw (whole_end, take-length)
        (decode_reason-Stands draft message after_retry reason [] 0 reason_fits (ground arith)
            at_reason
          ∙ ap (λ (e : ℕ). (some (reason, e), 0)) (reason_end ∙ whole_end))

  head_read :
      decode_error_head message draft
      ≡ some (
        (if uses_moq_vi64 draft then 0 else request_id),
        error_code,
        retry_interval,
        after_retry,
        start + length payload,
      )
  unfolding decode_error_head
  head_read = ground (
    arith,
    parsed,
    id_read,
    decode_moqint-Stands draft message after_id error_code _ code_fits at_code,
    decode_moqint-Stands draft message after_code retry_interval _ retry_fits at_retry,
  )

  -- A refusal that encode_request_error_message writes for a draft after 14, with integers that the
  -- draft can carry and a reason of at most 1024 bytes, is read back by decode_request_error with its
  -- error code, retry interval and reason, with its request id before draft 17 and with 0 from there
  -- on, and without a fault; on draft 23 the error code must not be REDIRECT, which needs a detail.
  pub decode-encode_request_error :
      is_draft14 draft ≡ false
      → not (is_draft23_or_later draft) || not (error_code == request_error_redirect) ≡ true
      → decode_request_error
          (encode_request_error_message draft request_id error_code retry_interval reason)
          draft
        ≡ some (
          some (
              error_of
                (if uses_moq_vi64 draft then 0 else request_id)
                error_code
                retry_interval
                reason
                false),
          0,
        )
  unfolding decode_request_error encode_request_error_message decode_error_body message
  decode-encode_request_error late code =
      rw (late, encode-eq)
        (ground (
          arith,
          head_read,
          reason_read,
          error_end-end draft message (start + length payload) error_code (length reason) 0 short
              code,
        ))
