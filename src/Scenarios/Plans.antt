-- ===== src/Scenarios/Plans.antt =====
-- The theorems on the scheduler's plan and counts, at concrete plans and tasks.
use go_prod22_go_project.Prelude.{String, List, [], ◌∷◌, ◌≡◌, keep, count, ◌==◌, string_eq, pos}
use go_prod22_go_project.Prelude.Map.{lookup}
use go_prod22_go_project.Domain.Status.{TaskStatus}
use go_prod22_go_project.Domain.Model.{Task}
use go_prod22_go_project.Scheduler.Plan.{PlanItem, group_of, group_by_device, status}
use go_prod22_go_project.Scheduler.Plan.Groups.{
  is_waiting, has_status, group_by_device_lem, status_lem,
}
use go_prod22_go_project.Scenarios.Records.{waiting, held}

abbrev item : String → String → PlanItem
item task device = record {
  release_id = "rel-1";
  task_id = task;
  device_id = device;
  priority = pos 0;
  status = TaskStatus.queued;
  ready_at = pos 0;
}

abbrev plan : List PlanItem
plan = item "task-1" "a" ∷ item "task-2" "b" ∷ item "task-3" "a" ∷ []

group_by_device_lem_example :
    group_of (lookup "a" (group_by_device plan)) ≡ keep (λ p. p.device_id == "a") plan
group_by_device_lem_example = group_by_device_lem "a" plan

abbrev tasks : List Task
tasks = waiting ∷ held ∷ record waiting { status = TaskStatus.rolling_back } ∷ []

status_lem_example :
    let s = status 4 tasks in
    (s.runs ≡ 4)
    × (s.queued ≡ count is_waiting tasks)
    × (s.leased ≡ count (has_status TaskStatus.leased) tasks)
    × (s.installing ≡ count (has_status TaskStatus.installing) tasks)
    × (s.awaiting ≡ count (has_status TaskStatus.awaiting) tasks)
    × (s.completed ≡ count (has_status TaskStatus.completed) tasks)
    × (s.failed ≡ count (has_status TaskStatus.failed) tasks)
status_lem_example = status_lem 4 tasks
