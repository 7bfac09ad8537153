-- ===== src/Media.antt =====
-- The queues that hold media between the packagers and the network.
pub mod Pending
pub mod Deadlines
pub mod Live
