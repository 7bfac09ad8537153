-- ===== src/Transport/Requirements.antt =====
-- src/transport/webtransport_requirements.h: what a peer must offer for a WebTransport session.
use moqxr.Common.{ℕ, ◌≡◌, Bool, true, not, ◌&&◌, List, [], ◌∷◌, ◌++◌, arith, ◌==◌, if◌then◌else◌}
use moqxr.Common.{◌↔◌}
use Prim.Native.String.{String}

pub record WebTransportPeerRequirements : Type 0 where
  pub settings_received : Bool
  pub h3_datagram : Bool
  pub enable_connect_protocol : Bool
  pub wt_enabled : ℕ
  pub wt_max_sessions : ℕ
  pub transport_parameters_known : Bool
  pub max_datagram_frame_size : ℕ
  pub reset_stream_at : Bool

-- if (unmet) missing.emplace_back(name)
abbrev note_missing : Bool → String → List String
note_missing unmet name = if unmet then name ∷ [] else []

unfoldable pub missing_settings : WebTransportPeerRequirements → List String
missing_settings peer =
    if not peer.settings_received
    then "server SETTINGS" ∷ []
    else note_missing (not peer.h3_datagram) "SETTINGS_H3_DATAGRAM=1"
      ++ (note_missing ((peer.wt_enabled == 0) && (peer.wt_max_sessions == 0)) "SETTINGS_WT_ENABLED"
          ++ note_missing (not (peer.wt_enabled == 0) && not peer.enable_connect_protocol)
              "SETTINGS_ENABLE_CONNECT_PROTOCOL=1")

unfoldable pub missing_parameters : WebTransportPeerRequirements → List String
missing_parameters peer =
    if not peer.transport_parameters_known
    then "server transport parameters" ∷ []
    else note_missing (peer.max_datagram_frame_size == 0)
        "max_datagram_frame_size transport parameter"
      ++ note_missing (not peer.reset_stream_at) "reset_stream_at transport parameter"

unfoldable pub missing_webtransport_requirements : WebTransportPeerRequirements → List String
missing_webtransport_requirements peer = missing_settings peer ++ missing_parameters peer

-- A peer that offers all that a session needs: datagrams in HTTP/3 and in QUIC, resets that keep
-- data, and WebTransport by the old signal, or by the new one with extended CONNECT.
is_ready : WebTransportPeerRequirements → Bool
is_ready peer =
    (peer.settings_received && peer.h3_datagram)
    && (if peer.wt_enabled == 0
        then not (peer.wt_max_sessions == 0)
        else peer.enable_connect_protocol)
    && (peer.transport_parameters_known
        && not (peer.max_datagram_frame_size == 0)
        && peer.reset_stream_at)

-- Nothing is reported missing exactly for a peer that is ready in the sense of is_ready.
missing-is_ready :
    (peer : WebTransportPeerRequirements)
    → (missing_webtransport_requirements peer ≡ []) ↔ (is_ready peer ≡ true)
unfolding missing_webtransport_requirements missing_settings missing_parameters is_ready
missing-is_ready peer = ground arith
