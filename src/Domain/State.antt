-- ===== src/Domain/State.antt =====
-- The task transitions of internal/domain/state.go.
pub mod Graph
use go_prod22_go_project.Prelude.{◌==◌, ◌||◌, Bool, false}
use go_prod22_go_project.Domain.Status.{TaskStatus, task_status_eq}

unfoldable pub valid_transition : TaskStatus → TaskStatus → Bool
valid_transition TaskStatus.queued to = to == TaskStatus.leased
valid_transition TaskStatus.leased to = to == TaskStatus.installing || to == TaskStatus.rejected
valid_transition TaskStatus.installing to =
    to == TaskStatus.awaiting || to == TaskStatus.completed || to == TaskStatus.failed
valid_transition TaskStatus.awaiting to = to == TaskStatus.completed || to == TaskStatus.failed
valid_transition TaskStatus.rejected to = to == TaskStatus.queued || to == TaskStatus.failed
valid_transition TaskStatus.completed to = to == TaskStatus.rollback_queued
valid_transition TaskStatus.failed to = to == TaskStatus.rollback_queued
valid_transition TaskStatus.rollback_queued to = to == TaskStatus.rolling_back
valid_transition TaskStatus.rolling_back to =
    to == TaskStatus.rolled_back || to == TaskStatus.failed
valid_transition TaskStatus.rolled_back to = false
