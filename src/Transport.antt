-- ===== src/Transport.antt =====
-- The small rules of src/transport that stand between the session and a QUIC stack: the error codes of
-- streams, the deferred close, what a WebTransport peer must offer, and the text of a peer's close.
pub mod ErrorCodes
pub mod CloseDrain
pub mod Requirements
pub mod PeerClose
