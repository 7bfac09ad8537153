-- ===== src/Tests/Wire/Notices.antt =====
-- Notices on concrete bytes.
use moqxr.Common.{ℕ, ◌≡◌, refl, some, List, [], ◌∷◌, arith}
use moqxr.Draft.{draft22}
use moqxr.Wire.Moqint.{push_moqint}
use moqxr.Wire.Control.{finish_message}
use moqxr.Wire.Fields.{append_string}
use moqxr.Wire.Notices.{goaway_type, decode_goaway_message}
use moqxr.Wire.Notices.RoundTrip.{decode_goaway-finish_message}

abbrev uri : List ℕ
uri = 109 ∷ 58 ∷ []

goaway_test :
    decode_goaway_message
      (finish_message draft22 goaway_type (push_moqint (append_string [] draft22 uri) draft22 5000))
      draft22
    ≡ (some (record { new_session_uri = uri; timeout_ms = 5000 }), 0)
goaway_test = decode_goaway-finish_message draft22 uri 5000 refl (omega arith) (omega arith)
