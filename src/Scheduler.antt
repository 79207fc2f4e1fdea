-- ===== src/Scheduler.antt =====
-- Capacity and the plan (internal/scheduler).
pub mod Plan
use go_prod22_go_project.Prelude.{ℕ, Bool, ◌==◌, ◌||◌, List, count}
use go_prod22_go_project.Domain.Status.{TaskStatus, task_status_eq}
use go_prod22_go_project.Domain.Model.{Task}

-- The tasks that `Active` counts.
abbrev pub is_running : Task → Bool
is_running t = t.status == TaskStatus.installing || t.status == TaskStatus.awaiting

unfoldable pub active : List Task → ℕ
active tasks = count is_running tasks
