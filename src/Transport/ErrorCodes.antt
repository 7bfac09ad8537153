-- ===== src/Transport/ErrorCodes.antt =====
-- src/transport/webtransport_error_codes.h: application errors of WebTransport streams in the error
-- space of HTTP/3. The differences are taken modulo 2^64 where the source does not guard them.
use moqxr.Common.{
  ℕ, ◌+◌, ◌-◌, ◌/◌, ◌%◌, ◌≤◌, ◌≡◌, ◌||◌, Option, none, some, arith, ltb, ◌==◌, if◌then◌else◌,
}
use moqxr.Common.Bytes.{IsU64, u64_mod, sub64}

-- kWebTransportApplicationErrorFirst and its two neighbours
abbrev application_error_first : ℕ
application_error_first = 0x52e4a40fa8db

abbrev application_error_last : ℕ
application_error_last = 0x52e5ac983162

abbrev max_application_error : ℕ
max_application_error = 0xffffffff

unfoldable pub webtransport_code_to_http_code : ℕ → ℕ
webtransport_code_to_http_code code =
    let clamped = if ltb max_application_error code then max_application_error else code in
    (application_error_first + clamped + clamped / 0x1e) % u64_mod

unfoldable pub http_code_to_webtransport_code : ℕ → Option ℕ
http_code_to_webtransport_code http_code =
    if ltb http_code application_error_first
      || ltb application_error_last http_code
      || ((sub64 http_code 0x21 % 0x1f) == 0)
    then none
    else let shifted = sub64 http_code application_error_first in some (shifted - shifted / 0x1f)

-- Every code of 32 bits is mapped into the range of application errors, to a code that is not
-- reserved, and is mapped back to itself.
http_code-webtransport_code :
    (code : ℕ)
    → code ≤ max_application_error
    → (application_error_first ≤ webtransport_code_to_http_code code)
      × (webtransport_code_to_http_code code ≤ application_error_last)
      × (http_code_to_webtransport_code (webtransport_code_to_http_code code) ≡ some code)
unfolding webtransport_code_to_http_code http_code_to_webtransport_code
http_code-webtransport_code code small = ground arith

-- A code from the peer that is taken for an application error is the one that this application error
-- is mapped to, and the error has 32 bits.
webtransport_code-http_code :
    (http_code code : ℕ)
    → IsU64 http_code
    → http_code_to_webtransport_code http_code ≡ some code
    → (code ≤ max_application_error) × (webtransport_code_to_http_code code ≡ http_code)
unfolding webtransport_code_to_http_code http_code_to_webtransport_code
webtransport_code-http_code http_code code word taken = ground arith
