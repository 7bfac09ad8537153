-- ===== src/Tests.antt =====
-- Runs of the definitions on concrete inputs, and the theorems applied to concrete inputs.
pub mod Wire
pub mod Media
pub mod Failover
pub mod Transport
pub mod Session
pub mod Loop
pub mod Mp4
