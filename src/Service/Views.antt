-- ===== src/Service/Views.antt =====
-- Read-only views of the service (internal/service/query.go, reporting.go, workflow.go), and
-- `Once` of internal/recovery/replay.go.
use go_prod22_go_project.Prelude.{
  ℕ, suc, String, Option, none, some, Bool, true, false, not, ◌==◌, if◌then◌else◌, List, [], ◌∷◌,
  length, eqb, keep, string_eq,
}
use go_prod22_go_project.Prelude.Map.{Map, lookup, insert, values}
use go_prod22_go_project.Domain.Status.{TaskStatus, task_status_eq}
use go_prod22_go_project.Domain.Model.{Release, Task}
use go_prod22_go_project.Domain.Errors.{Error, not_found, message}
use go_prod22_go_project.Events.{Event}
use go_prod22_go_project.Store.{State}
use go_prod22_go_project.Store.Disk.{Disk}
use go_prod22_go_project.Store.Durable.{DurableStore, load_report}

abbrev pub get_release : String → State → Option Release
get_release id st = lookup id st.releases

abbrev pub tasks_by_device : String → State → List Task
tasks_by_device device st = keep (λ t. t.device_id == device) (values st.tasks)

-- The named results of `ReleaseProgress`.
pub record Progress : Type 0 where
  pub completed : ℕ
  pub total : ℕ
  pub failed : ℕ
  pub error : Option Error

abbrev pub no_progress : Progress
no_progress = record { completed = 0; total = 0; failed = 0; error = none }

abbrev pub add_progress : Task → Progress → Progress
add_progress t p = record p {
  total = suc p.total;
  completed = if t.status == TaskStatus.completed then suc p.completed else p.completed;
  failed = if t.status == TaskStatus.failed then suc p.failed else p.failed;
}

unfoldable pub count_progress : String → List Task → Progress → Progress
count_progress id [] p = p
count_progress id (t ∷ ts) p =
    let rest = count_progress id ts p in
    let counted = count_progress id ts (add_progress t p) in
    if not (t.release_id == id) then rest else counted

abbrev pub progress_of : Option Release → String → State → Progress
progress_of none id st = record no_progress { error = some not_found }
progress_of (some r) id st =
    let p = count_progress id (values st.tasks) no_progress in
    if not (eqb p.total (length r.devices))
    then record p { error = some (message "task index inconsistent") }
    else p

unfoldable pub release_progress : String → State → Progress
unfolding count_progress lookup
release_progress id st = progress_of (lookup id st.releases) id st

-- `RecoveryInfo`, on a durable store; on any other it is `Loaded` alone.
pub record RecoveryInfo : Type 0 where
  pub loaded : Bool
  pub events : ℕ
  pub corrupt : ℕ
  pub truncated : ℕ
  pub last_error : Option Error

unfoldable pub recovery_info : Option DurableStore → Disk → RecoveryInfo × Disk
unfolding load_report
recovery_info none disk =
    (record { loaded = true; events = 0; corrupt = 0; truncated = 0; last_error = none }, disk)
recovery_info (some d) disk =
    let (l, disk') = load_report d disk in
    (
      record {
        loaded = l.report.snapshot_loaded;
        events = l.report.events_read;
        corrupt = l.report.corrupt_records;
        truncated = l.report.truncated_bytes;
        last_error = l.error;
      },
      disk',
    )

-- The ids seen, and whether the event is new.
unfoldable pub once : Event → Map Bool → Bool × Map Bool
unfolding lookup insert
once e ids = if is_seen (lookup e.id ids) then (false, ids) else (true, insert e.id true ids)
  where
    is_seen : Option Bool → Bool
    is_seen none = false
    is_seen (some b) = b
