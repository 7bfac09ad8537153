-- ===== src/Wire/Requests/Fuel.antt =====
-- The fuel of the loop over the details of a refusal, in decode_request_error of
-- moqt_control_messages.cpp.
use moqxr.Common.{
  ℕ, zero, suc, ◌+◌, ◌≤◌, ◌<◌, ◌≡◌, ◌≢◌, inl, inr, sym, subst, Bool, Option, none, some, List,
  arith, length, take, All, Option-cases,
}
use moqxr.Common.{take-All}
use moqxr.Common.Bytes.{IsByte}
use moqxr.Draft.{DraftVersion}
use moqxr.Wire.Moqint.{decode_moqint_impl}
use moqxr.Wire.Moqint.RoundTrip.{decode_moqint_takes}
use moqxr.Wire.Control.{parse_control_length_message}
use moqxr.Wire.Fields.{decode_reason_phrase}
use moqxr.Wire.Requests.{decode_detail}
use moqxr.Wire.Requests.Decode.{
  decode_details, decode_request_error_details, decode_error_end, decode_error_head,
  decode_error_body, decode_request_error,
}

detail-moves :
    (bytes : List ℕ) (offset end : ℕ) (draft : DraftVersion) (type : ℕ) (redirect : Option Bool)
    (fault offset' type' : ℕ) (redirect' : Option Bool)
    → All IsByte bytes
    → (decode_detail bytes offset end draft type redirect fault).0
      ≡ some (offset', type', redirect')
    → offset < offset'
unfolding decode_detail
detail-moves bytes offset end draft type redirect fault offset' type' redirect' h e =
    elim (Option-cases (decode_moqint_impl (take end bytes) offset draft)) [
      | inl fails ↦ ground (arith, fails)
      | inr ((delta, offset1), reads) ↦
          elim (Option-cases (decode_moqint_impl (take end bytes) offset1 draft)) [
            | inl fails ↦ ground (arith, reads, fails)
            | inr ((size, offset2), reads') ↦ ground (
              arith,
              reads,
              reads',
              decode_moqint_takes draft (take end bytes) offset delta offset1
                  (take-All IsByte end bytes h) reads,
              decode_moqint_takes draft (take end bytes) offset1 size offset2
                  (take-All IsByte end bytes h) reads',
            )
          ]
    ]

details-answer :
    (fuel : ℕ) (bytes : List ℕ) (offset end : ℕ) (draft : DraftVersion) (type : ℕ)
    (redirect : Option Bool) (fault : ℕ)
    → All IsByte bytes
    → end ≤ offset + fuel
    → decode_details fuel bytes offset end draft type redirect fault ≢ none
unfolding decode_details
details-answer zero bytes offset end draft type redirect fault h enough = ground arith
details-answer (suc fuel) bytes offset end draft type redirect fault h enough =
    let r = decode_detail bytes offset end draft type redirect fault in
    elim (Option-cases r.0) [
      | inl refused ↦ ground (arith, refused)
      | inr ((offset', type', redirect'), found) ↦ ground (
        arith,
        found,
        detail-moves bytes offset end draft type redirect fault offset' type' redirect' h found,
        details-answer fuel bytes offset' end draft type' redirect' r.1 h,
      )
    ]

error_details-answer :
    (bytes : List ℕ) (offset : ℕ) (draft : DraftVersion) (error_code fault : ℕ)
    → All IsByte bytes
    → decode_request_error_details bytes offset (length bytes) draft error_code fault ≢ none
unfolding decode_request_error_details
error_details-answer bytes offset draft error_code fault h =
    let run = decode_details (length bytes) bytes offset (length bytes) draft 0 none fault in
    let answers : run ≢ none =
      details-answer (length bytes) bytes offset (length bytes) draft 0 none fault h
        (omega arith) in
    elim (Option-cases run) [
      | inl e ↦ absurd (answers e)
      | inr ((none, fault'), e) ↦ ground (arith, e)
      | inr ((some none, fault'), e) ↦ ground (arith, e)
      | inr ((some (some named), fault'), e) ↦ ground (arith, e)
    ]

error_end-answer :
    (bytes : List ℕ) (offset : ℕ) (draft : DraftVersion) (error_code reason_size fault : ℕ)
    → All IsByte bytes
    → decode_error_end bytes offset (length bytes) draft error_code reason_size fault ≢ none
unfolding decode_error_end
error_end-answer bytes offset draft error_code reason_size fault h =
    let details = decode_request_error_details bytes offset (length bytes) draft error_code fault in
    elim (Option-cases details) [
      | inl e ↦ absurd (error_details-answer bytes offset draft error_code fault h e)
      | inr ((none, fault'), e) ↦ ground (arith, e)
      | inr ((some redirect, fault'), e) ↦ ground (arith, e)
    ]

-- The payload of a message that is accepted ends where the message ends.
head-end :
    (bytes : List ℕ) (draft : DraftVersion) (request_id error_code retry_interval offset end : ℕ)
    → decode_error_head bytes draft ≡ some (request_id, error_code, retry_interval, offset, end)
    → end ≡ length bytes
unfolding decode_error_head parse_control_length_message
head-end bytes draft request_id error_code retry_interval offset end e = ground arith

error_body-answer :
    (bytes : List ℕ) (draft : DraftVersion)
    → All IsByte bytes
    → decode_error_body bytes draft ≢ none
unfolding decode_error_body
error_body-answer bytes draft h = elim (Option-cases (decode_error_head bytes draft)) [
  | inl e ↦ ground (arith, e)
  | inr ((request_id, error_code, retry_interval, offset, end), e) ↦
      let r = decode_reason_phrase (take end bytes) offset draft 0 in
      elim (Option-cases r.0) [
        | inl fails ↦ ground (arith, e, fails)
        | inr ((text, offset'), reads) ↦
            let answers =
              subst
                (λ n. decode_error_end bytes offset' n draft error_code (length text) r.1 ≢ none)
                (sym (head-end bytes draft request_id error_code retry_interval offset end e))
                (error_end-answer bytes offset' draft error_code (length text) r.1 h) in
            elim (Option-cases
              (decode_error_end bytes offset' end draft error_code (length text) r.1)) [
                | inl k ↦ absurd (answers k)
                | inr ((none, fault'), k) ↦ ground (arith, e, reads, k)
                | inr ((some named, fault'), k) ↦ ground (arith, e, reads, k)
              ]
      ]
]

-- On any bytes and for every draft, decode_request_error answers: the fuel of the loop over the details
-- is enough.
pub decode_request_error-answer :
    (bytes : List ℕ) (draft : DraftVersion)
    → All IsByte bytes
    → decode_request_error bytes draft ≢ none
unfolding decode_request_error
decode_request_error-answer bytes draft h = ground (arith, error_body-answer bytes draft h)
