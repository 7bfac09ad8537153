-- ===== src/Tests/Wire/Requests.antt =====
-- A refusal on concrete bytes.
use moqxr.Common.{ℕ, ◌≡◌, ◌≢◌, refl, false, none, some, List, [], ◌∷◌, arith, All}
use moqxr.Common.Bytes.{IsByte}
use moqxr.Draft.{draft16, draft23}
use moqxr.Wire.Requests.{encode_request_error_message}
use moqxr.Wire.Requests.Decode.{decode_request_error, error_of}
use moqxr.Wire.Requests.RoundTrip.{decode-encode_request_error}
use moqxr.Wire.Requests.Fuel.{decode_request_error-answer}

abbrev reason : List ℕ
reason = 110 ∷ 111 ∷ []

decode-encode_request_error_example :
    decode_request_error (encode_request_error_message draft23 7 0x10 300 reason) draft23
    ≡ some (some (error_of 0 0x10 300 reason false), 0)
decode-encode_request_error_example =
    decode-encode_request_error draft23 7 0x10 300 reason (omega arith) (omega arith) (omega arith)
      (omega arith) refl refl

abbrev refusal : List ℕ
refusal = 5 ∷ 0 ∷ 4 ∷ 7 ∷ 16 ∷ 0 ∷ 0 ∷ []

refusal-AreBytes : All IsByte refusal
refusal-AreBytes = (
  omega arith,
  (omega arith, (omega arith, (omega arith, (omega arith, (omega arith, (omega arith, tt)))))),
)

decode_request_error-answer_example : decode_request_error refusal draft16 ≢ none
decode_request_error-answer_example = decode_request_error-answer refusal draft16 refusal-AreBytes
