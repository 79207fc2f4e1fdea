-- ===== src/Scenarios.antt =====
-- Concrete services, the smoke test's workflow (internal/cli/cli.go, `RunSmoke`) on them, and
-- the theorems at such inputs.
pub mod Prepared
pub mod Codes
mod Records
pub mod Stores
pub mod Crashes
mod Files
mod Views
pub mod Runs
mod Outcomes
mod Plans
use Prim.Native.String.{◌++◌ as join}
use go_prod22_go_project.Scheduler.{active}
use go_prod22_go_project.Domain.Task.{lease, verify_lease}
use go_prod22_go_project.Domain.State.{valid_transition}
use go_prod22_go_project.Domain.Release
use go_prod22_go_project.Domain.Task
use go_prod22_go_project.Domain.Release.{terminal, valid_release_transition}
use go_prod22_go_project.Prelude.Text.{str_ltb}
use go_prod22_go_project.Prelude.{
  ℕ, zero, suc, ◌+◌, String, Option, none, some, List, [], ◌∷◌, ◌++◌, pos, ◌≡◌, refl, true, false,
  int64, ◌+ℤ◌, ◌-ℤ◌,
}
use go_prod22_go_project.Prelude.Map.{lookup, replace, insert}
use go_prod22_go_project.Domain.Status.{ReleaseStatus}
use go_prod22_go_project.Domain.Model.{Release, Task, RollbackPolicy}
use go_prod22_go_project.Domain.Errors.{Result, ok}
use go_prod22_go_project.Store.Memory.{MemoryStore, new_memory_store, memory_store}
use go_prod22_go_project.Service.Base.{
  Ports, Service, Cmd, ◌>>=◌, ◌>>◌, pure, find_release, find_task, find_device, get_device,
  get_release, get_task, gets, guard, ignore, lift, modify, or_crash, or_raise, write_release,
  write_task, append, snapshot, new_id, clock_now,
}
use go_prod22_go_project.Service.Core.{
  new, recover, apply_all, apply, project, emit, commit_task, reconcile, reconcile_found,
  record_audit, save_release, save_task,
}
use go_prod22_go_project.Service.Releases.{create_release, create_tasks}
use go_prod22_go_project.Service.Devices.{register_device}
use go_prod22_go_project.Service.Dispatch.{
  claim, claim_locked, eligible_tasks, claim_with_ttl, decide_release, dispatch_decision,
  enter_preflight, is_eligible, list_tasks,
}
use go_prod22_go_project.Service.Tasks.{
  start_task, report_preflight, confirm_install, confirm_waiting,
}

-- Unary texts, by which the ids are told apart.
abbrev marks : ℕ → String
marks zero = ""
marks (suc n) = join "i" (marks n)

abbrev pub ports : Ports MemoryStore
ports = record {
  store = memory_store;
  clock = λ n. pos (1000 + n);
  ids = λ prefix n. join prefix (marks n);
}

abbrev pub policy : RollbackPolicy
policy = record { max_failures = pos 1; auto = true }

-- The workflow of `RunSmoke` up to the restart.
smoke : Cmd MemoryStore Release
unfolding create_release register_device claim start_task report_preflight confirm_install
smoke = do
  r ← create_release ports "2.0.0" ("smoke-device" ∷ []) (pos 1) (pos 1) (pos 1) policy
  register_device ports "smoke-device" "1.0.0" ("smoke" ∷ [])
  t ← claim ports "smoke-device" "smoke-agent"
  start_task ports t.id "smoke-agent"
  report_preflight ports t.id true ""
  confirm_install ports t.id "smoke-agent"
  pure r

abbrev pub start : Service MemoryStore
start = new ports new_memory_store

abbrev status_of : Option Release → Option ReleaseStatus
status_of none = none
status_of (some r) = some r.status

abbrev status_after : Result Release × Service MemoryStore → Option ReleaseStatus
status_after (ok r, s) = status_of (lookup r.id s.state.releases)
status_after (_, s) = none

abbrev status_restarted : Result Release × Service MemoryStore → Option ReleaseStatus
status_restarted (ok r, s) = status_of (lookup r.id (recover ports s).state.releases)
status_restarted (_, s) = none

smoke_completes : status_after (smoke start) ≡ some ReleaseStatus.completed
unfolding smoke claim_locked eligible_tasks find_release terminal Release.transition
    valid_release_transition valid_transition lease Task.transition verify_lease int64 ◌+ℤ◌ ◌-ℤ◌
    replace str_ltb active find_task find_device get_device get_release get_task gets guard ignore
    lift modify or_crash or_raise pure write_release write_task apply_all apply project insert
    lookup append snapshot new_id clock_now ◌>>=◌ emit commit_task new reconcile reconcile_found
    record_audit recover save_release save_task register_device claim claim_with_ttl decide_release
    dispatch_decision enter_preflight is_eligible list_tasks create_release create_tasks
    confirm_install confirm_waiting report_preflight start_task
smoke_completes = refl

smoke_restart : status_restarted (smoke start) ≡ some ReleaseStatus.completed
unfolding smoke claim_locked eligible_tasks find_release terminal Release.transition
    valid_release_transition valid_transition lease Task.transition verify_lease int64 ◌+ℤ◌ ◌-ℤ◌
    replace str_ltb active find_task find_device get_device get_release get_task gets guard ignore
    lift modify or_crash or_raise pure write_release write_task apply_all apply project insert
    lookup append snapshot new_id clock_now ◌>>=◌ emit commit_task new reconcile reconcile_found
    record_audit recover save_release save_task register_device claim claim_with_ttl decide_release
    dispatch_decision enter_preflight is_eligible list_tasks create_release create_tasks
    confirm_install confirm_waiting report_preflight start_task
smoke_restart = refl
