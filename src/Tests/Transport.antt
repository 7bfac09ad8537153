-- ===== src/Tests/Transport.antt =====
-- The rules of the transports on concrete input.
use moqxr.Common.{
  ℕ, ◌^◌, ◌<◌, ◌≡◌, refl, true, false, not, ◌&&◌, ◌||◌, none, some, List, [], ◌∷◌, arith, ltb, ◌==◌,
  All,
}
use moqxr.Common.Bytes.{IsByte}
use moqxr.Transport.ErrorCodes.{http_code_to_webtransport_code}
use moqxr.Transport.Requirements.{WebTransportPeerRequirements}
use moqxr.Transport.PeerClose.{
  printable_reason, printable_bytes, printable_byte, is_plain, hex_digit, outside, unescape,
  unescape-printable_reason,
}
use moqxr.Transport.CloseDrain.{StreamHead, queued_end, close_drain_should_wait}
use moqxr.Transport.CloseDrain.Drained.{StreamFits, unsent_of, all_sent, should_wait-all_sent}

taken_test : http_code_to_webtransport_code 0x52e4a40fa8fa ≡ some 30
unfolding http_code_to_webtransport_code
taken_test = refl

reserved_test : http_code_to_webtransport_code 0x52e4a40fa8f9 ≡ none
unfolding http_code_to_webtransport_code
reserved_test = refl

abbrev peer : WebTransportPeerRequirements
peer = record {
  settings_received = true;
  h3_datagram = true;
  enable_connect_protocol = true;
  wt_enabled = 1;
  wt_max_sessions = 0;
  transport_parameters_known = true;
  max_datagram_frame_size = 1200;
  reset_stream_at = false;
}

-- The bytes of `a"` and a line feed.
abbrev reason : List ℕ
reason = 97 ∷ 34 ∷ 10 ∷ []

escaped_test : printable_reason reason ≡ 97 ∷ 92 ∷ 120 ∷ 50 ∷ 50 ∷ 92 ∷ 120 ∷ 48 ∷ 97 ∷ []
unfolding printable_reason printable_bytes printable_byte is_plain hex_digit
escaped_test = refl

reason-AreBytes : All IsByte reason
reason-AreBytes = (omega arith, (omega arith, (omega arith, tt)))

-- A stream with 20 bytes of which 15 are sent.
abbrev streams : List StreamHead
streams =
    record {
      sent_offset = 15;
      send_queue = (10, 10) ∷ [];
      fin_requested = true;
      fin_sent = false;
      reset_requested = false;
      reset_sent = false;
    }
    ∷ []

streams-Fit : All StreamFits streams
streams-Fit = (record { sent = omega arith; nodes = (omega arith, tt) }, tt)

streams-small : unsent_of streams < 2 ^ 64
unfolding unsent_of queued_end
streams-small = omega arith

unescaped_test : unescape outside (printable_reason reason) ≡ reason
unescaped_test = unescape-printable_reason reason reason-AreBytes (omega arith)

waiting_test :
    let done = (0 == 0) && (all_sent streams && true) in
    close_drain_should_wait (some (streams, true)) 0 50 40 false
    ≡ (not done && ltb 40 50, false || (not done && not (ltb 40 50)))
waiting_test =
    should_wait-all_sent streams streams-Fit streams-small (omega arith) true 0 50 40 false
