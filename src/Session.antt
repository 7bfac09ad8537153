-- ===== src/Session.antt =====
-- src/transport/moqt_session.cpp: the parts of the session that keep state or decide by themselves.
pub mod Completed
pub mod Priority
pub mod Violations
pub mod RequestIds
pub mod Namespaces
pub mod Subscriptions
pub mod Filters
pub mod Timeouts
pub mod ControlReader
pub mod Drafts
pub mod PeerStreams
pub mod Generations
pub mod Answers
pub mod Subgroups
