-- ===== src/Service.antt =====
-- The service (internal/service): commands over the state, the store, the clock and the ids.
pub mod Base
pub mod Core
pub mod Releases
pub mod Devices
pub mod Tasks
pub mod Dispatch
pub mod Rollback
pub mod Inversion
pub mod Keeps
pub mod Preserved
pub mod WellFormed
pub mod Grants
pub mod Outcomes
pub mod Stored
pub mod Reaping
pub mod Ticking
pub mod Pages
pub mod Metrics
pub mod Views
pub mod Commands
pub mod Sync
