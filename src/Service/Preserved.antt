-- ===== src/Service/Preserved.antt =====
-- Every command keeps every invariant that satisfies the laws of `Service.Keeps.Laws`.
pub mod Rules
pub mod Tasks
pub mod Releases
pub mod Claims
pub mod Rollback
pub mod Commands
