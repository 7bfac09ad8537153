-- ===== src/Tests/Media.antt =====
-- The queues of waiting media and the deadlines.
pub mod Live
pub mod Waiting
