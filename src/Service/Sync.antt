-- ===== src/Service/Sync.antt =====
-- The log is the source of truth: replaying it gives the state that the service holds.
pub mod View
pub mod Writes
pub mod Replay
pub mod Journal
pub mod Laws
pub mod Recovery
pub mod Memory
pub mod Durable
