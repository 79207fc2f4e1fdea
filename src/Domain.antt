-- ===== src/Domain.antt =====
-- The firmware rollout's own types and rules (internal/domain).
pub mod Status
pub mod Model
pub mod Errors
pub mod State
pub mod Task
pub mod Release
pub mod Validation
