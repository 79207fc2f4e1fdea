-- ===== src/Scheduler/Plan.antt =====
-- The scheduler's plan and counts (internal/scheduler/plan.go, scheduler.go).
pub mod Groups
use go_prod22_go_project.Prelude.{
  ℕ, suc, ◌+◌, ℤ, pos, ◌-ℤ◌, int64, ltb_ℤ, String, Option, none, some, Bool, true, false, ◌==◌,
  ◌&&◌, ◌||◌, not, if◌then◌else◌, List, [], ◌∷◌, ◌++◌, keep, map, sort_by, int_eq, string_eq,
}
use go_prod22_go_project.Prelude.Map.{Map, lookup, insert}
use go_prod22_go_project.Domain.Status.{TaskStatus, task_status_eq}
use go_prod22_go_project.Domain.Model.{Release, Task, Time, is_zero, before}
use go_prod22_go_project.Domain.Release.{capacity, ready}

pub record PlanItem : Type 0 where
  pub release_id : String
  pub task_id : String
  pub device_id : String
  pub priority : ℤ
  pub status : TaskStatus
  pub ready_at : Time

-- The interface `Planner`.
pub record Planner : Type 0 where
  pub list_releases : List Release
  pub list_tasks : String → List Task

abbrev pub is_plannable : Time → Task → Bool
is_plannable now t =
    (t.status == TaskStatus.queued || t.status == TaskStatus.rejected)
    && (is_zero t.next_retry || not (before now t.next_retry))

abbrev pub plan_item : Release → List Task → Task → PlanItem
plan_item r tasks t = record {
  release_id = r.id;
  task_id = t.id;
  device_id = t.device_id;
  priority = int64 (r.max_concurrent -ℤ capacity r tasks);
  status = t.status;
  ready_at = t.next_retry;
}

unfoldable pub plan_releases : Planner → Time → List Release → List PlanItem
plan_releases p now [] = []
plan_releases p now (r ∷ rs) =
    let rest = plan_releases p now rs in
    let tasks = p.list_tasks r.id in
    if not (ready r tasks now)
    then rest
    else map (plan_item r tasks) (keep (is_plannable now) tasks) ++ rest

abbrev pub plan_order : PlanItem → PlanItem → Bool
plan_order a b =
    if a.priority == b.priority then before a.ready_at b.ready_at else ltb_ℤ a.priority b.priority

unfoldable pub build_plan : Planner → Time → List PlanItem
build_plan p now = sort_by plan_order (plan_releases p now p.list_releases)

-- What Go's map gives for a device: its slice, or nil.
abbrev pub group_of : Option (List PlanItem) → List PlanItem
group_of none = []
group_of (some items) = items

unfoldable pub group_into : Map (List PlanItem) → List PlanItem → Map (List PlanItem)
group_into out [] = out
group_into out (p ∷ ps) =
    group_into (insert p.device_id (group_of (lookup p.device_id out) ++ p ∷ []) out) ps

unfoldable pub group_by_device : List PlanItem → Map (List PlanItem)
group_by_device plan = group_into [] plan

pub record Snapshot : Type 0 where
  pub runs : ℕ
  pub queued : ℕ
  pub leased : ℕ
  pub installing : ℕ
  pub awaiting : ℕ
  pub completed : ℕ
  pub failed : ℕ

abbrev pub tally : TaskStatus → Snapshot → Snapshot
tally TaskStatus.queued s = record s { queued = suc s.queued }
tally TaskStatus.rejected s = record s { queued = suc s.queued }
tally TaskStatus.leased s = record s { leased = suc s.leased }
tally TaskStatus.installing s = record s { installing = suc s.installing }
tally TaskStatus.awaiting s = record s { awaiting = suc s.awaiting }
tally TaskStatus.completed s = record s { completed = suc s.completed }
tally TaskStatus.failed s = record s { failed = suc s.failed }
tally _ s = s

-- `Status`, for a scheduler with so many runs.
unfoldable pub status : ℕ → List Task → Snapshot
status runs [] = record {
  runs = runs;
  queued = 0;
  leased = 0;
  installing = 0;
  awaiting = 0;
  completed = 0;
  failed = 0;
}
status runs (t ∷ ts) = let rest = status runs ts in tally t.status rest
