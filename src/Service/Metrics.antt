-- ===== src/Service/Metrics.antt =====
-- The metrics of the service (internal/service/metrics.go), and what it reports of its store
-- (internal/service/workflow.go).
use go_prod22_go_project.Prelude.{
  ℕ, suc, ◌+◌, Bool, ◌==◌, ◌||◌, ◌≡◌, List, [], ◌∷◌, length, count, arith,
}
use go_prod22_go_project.Prelude.Map.{values}
use go_prod22_go_project.Domain.Status.{TaskStatus, task_status_eq}
use go_prod22_go_project.Domain.Model.{Task, Time}
use go_prod22_go_project.Store.{State}
use go_prod22_go_project.Recovery.{Report, inspect}
use go_prod22_go_project.Health.{detailed, healthy}

pub record Metrics : Type 0 where
  pub at : Time
  pub releases : ℕ
  pub devices : ℕ
  pub tasks : ℕ
  pub active : ℕ
  pub queued : ℕ
  pub completed : ℕ
  pub failed : ℕ
  pub recovery : Report
  pub healthy : Bool

-- The switch on a task's status.
abbrev pub add_task : TaskStatus → Metrics → Metrics
add_task TaskStatus.queued m = record m { queued = suc m.queued }
add_task TaskStatus.rejected m = record m { queued = suc m.queued }
add_task TaskStatus.leased m = record m { active = suc m.active }
add_task TaskStatus.installing m = record m { active = suc m.active }
add_task TaskStatus.awaiting m = record m { active = suc m.active }
add_task TaskStatus.rolling_back m = record m { active = suc m.active }
add_task TaskStatus.completed m = record m { completed = suc m.completed }
add_task TaskStatus.rolled_back m = record m { completed = suc m.completed }
add_task TaskStatus.failed m = record m { failed = suc m.failed }
add_task TaskStatus.rollback_queued m = m

unfoldable pub add_tasks : List Task → Metrics → Metrics
add_tasks [] m = m
add_tasks (t ∷ ts) m = add_tasks ts (add_task t.status m)

-- A snapshot before the loop over the tasks.
abbrev pub no_tasks : Time → State → Metrics
no_tasks now st = record {
  at = now;
  releases = length st.releases;
  devices = length st.devices;
  tasks = length st.tasks;
  active = 0;
  queued = 0;
  completed = 0;
  failed = 0;
  recovery = inspect st;
  healthy = healthy (detailed st now);
}

-- `MetricsSnapshot`, at the clock's reading.
unfoldable pub metrics_snapshot : Time → State → Metrics
unfolding add_tasks detailed inspect healthy
metrics_snapshot now st = add_tasks (values st.tasks) (no_tasks now st)

-- The tasks that each count takes in.
abbrev pub is_queued : Task → Bool
is_queued t = t.status == TaskStatus.queued || t.status == TaskStatus.rejected

abbrev pub is_running : Task → Bool
is_running t =
    t.status == TaskStatus.leased
    || t.status == TaskStatus.installing
    || t.status == TaskStatus.awaiting
    || t.status == TaskStatus.rolling_back

abbrev pub is_done : Task → Bool
is_done t = t.status == TaskStatus.completed || t.status == TaskStatus.rolled_back

abbrev pub is_failed : Task → Bool
is_failed t = t.status == TaskStatus.failed

add_tasks_lem :
    (ts : List Task) (m : Metrics)
    → let m' = add_tasks ts m in
      (m'.queued ≡ m.queued + count is_queued ts)
      × (m'.active ≡ m.active + count is_running ts)
      × (m'.completed ≡ m.completed + count is_done ts)
      × (m'.failed ≡ m.failed + count is_failed ts)
unfolding add_tasks
add_tasks_lem [] m = (omega arith, omega arith, omega arith, omega arith)
add_tasks_lem (t ∷ ts) m =
    let rest = add_tasks_lem ts (add_task t.status m) in
    (ground (arith, rest), ground (arith, rest), ground (arith, rest), ground (arith, rest))

-- A metrics snapshot counts as queued exactly the tasks that are queued or rejected, as active
-- those that are leased, installing, awaiting or rolling back, as completed those that are completed
-- or rolled back, and as failed those that failed; a task that is queued for a rollback is in none.
pub metrics_snapshot_lem :
    (now : Time) (st : State)
    → let m = metrics_snapshot now st in
      (m.queued ≡ count is_queued (values st.tasks))
      × (m.active ≡ count is_running (values st.tasks))
      × (m.completed ≡ count is_done (values st.tasks))
      × (m.failed ≡ count is_failed (values st.tasks))
unfolding metrics_snapshot
metrics_snapshot_lem now st =
    let (queued, running, done, failed) = add_tasks_lem (values st.tasks) (no_tasks now st) in
    (omega (arith, queued), omega (arith, running), omega (arith, done), omega (arith, failed))
