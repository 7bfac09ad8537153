-- ===== src/Loop.antt =====
-- src/loop_timestamps.cpp: how the media timestamps of a looped input move on with every cycle.
pub mod Varint
pub mod Offsets
pub mod Locmaf
