-- ===== src/Scenarios/Prepared.antt =====
-- A service with a release for two devices that are online, and claims on it.
use go_prod22_go_project.Prelude.{
  Option, some, none, true, false, suc, ◌≤ℤ◌, arith, List, [], ◌∷◌, pos, ◌≡◌, ◌≢◌, refl, int64,
  ◌+ℤ◌, ◌-ℤ◌,
}
use go_prod22_go_project.Domain.Status.{TaskStatus}
use go_prod22_go_project.Domain.Model.{Task, Device, minute}
use go_prod22_go_project.Service.Dispatch.{head?}
use go_prod22_go_project.Service.Commands
use go_prod22_go_project.Service.Commands.{Command, exec, run, NoPanic}
use go_prod22_go_project.Scenarios.{ports, policy, start}
use go_prod22_go_project.Scheduler.{active}
use go_prod22_go_project.Domain.Task.{lease, verify_lease}
use go_prod22_go_project.Domain.State.{valid_transition}
use go_prod22_go_project.Domain.Release
use go_prod22_go_project.Domain.Task
use go_prod22_go_project.Domain.Release.{terminal, valid_release_transition}
use go_prod22_go_project.Prelude.Text.{str_ltb}
use go_prod22_go_project.Prelude.Map.{lookup, replace, insert}
use go_prod22_go_project.Domain.Errors.{Result, ok}
use go_prod22_go_project.Store.Memory.{MemoryStore}
use go_prod22_go_project.Service.Base.{
  Service, ◌>>=◌, pure, find_release, find_task, find_device, get_device, get_release, get_task,
  gets, guard, ignore, lift, modify, or_crash, or_raise, write_release, write_task, append,
  snapshot, new_id, clock_now,
}
use go_prod22_go_project.Service.Core.{
  new, recover, apply_all, apply, project, emit, commit_task, reconcile, reconcile_found,
  record_audit, save_release, save_task,
}
use go_prod22_go_project.Service.Releases.{queued_task, create_release, create_tasks}
use go_prod22_go_project.Service.Devices.{register_device}
use go_prod22_go_project.Service.Dispatch.{
  claim, claim_locked, eligible_tasks, claim_with_ttl, decide_release, dispatch_decision,
  enter_preflight, is_eligible, list_tasks,
}
use go_prod22_go_project.Service.Tasks.{
  start_task, report_preflight, confirm_install, confirm_waiting,
}

abbrev pub rollout : List Command
rollout =
    Commands.create_release "2.0.0" ("left" ∷ "right" ∷ []) (pos 2) (pos 2) (pos 1) policy
    ∷ Commands.register_device "left" "1.0.0" []
    ∷ Commands.register_device "right" "1.0.0" []
    ∷ Commands.claim "left" "agent" minute
    ∷ []

abbrev pub setup : List Command
setup =
    Commands.create_release "2.0.0" ("left" ∷ "right" ∷ []) (pos 2) (pos 2) (pos 1) policy
    ∷ Commands.register_device "left" "1.0.0" []
    ∷ Commands.register_device "right" "1.0.0" []
    ∷ []

unfoldable pub prepared : Service MemoryStore
prepared = run ports setup start

abbrev task_or : Result Task → Task
task_or (ok t) = t
task_or _ = queued_task "" "" "" (pos 0)

abbrev first_or : Option Task → Task
first_or (some t) = t
first_or none = queued_task "" "" "" (pos 0)

abbrev device_or : Option Device → Device
device_or (some d) = d
device_or none = record {
  id = "";
  firmware = "";
  capabilities = [];
  registered_at = pos 0;
  last_seen = pos 0;
  online = false;
}

unfoldable pub left_task : Task
left_task = task_or (claim_with_ttl ports "left" "agent" minute prepared).0

unfoldable pub right_task : Task
right_task =
    task_or
      (claim_with_ttl ports "right" "agent" minute
        (claim_with_ttl ports "left" "agent" minute prepared).1).0

unfoldable pub next_task : Task
next_task = first_or (head? (eligible_tasks "left" (pos 2000) prepared.state))

pub left_claims : (claim_with_ttl ports "left" "agent" minute prepared).0 ≡ ok left_task
unfolding prepared left_task right_task next_task run exec claim_locked eligible_tasks find_release
    terminal Release.transition valid_release_transition valid_transition lease Task.transition
    verify_lease int64 ◌+ℤ◌ ◌-ℤ◌ replace str_ltb active find_task find_device get_device get_release
    get_task gets guard ignore lift modify or_crash or_raise pure write_release write_task apply_all
    apply project insert lookup append snapshot new_id clock_now ◌>>=◌ emit commit_task new
    reconcile reconcile_found record_audit recover save_release save_task register_device claim
    claim_with_ttl decide_release dispatch_decision enter_preflight is_eligible list_tasks
    create_release create_tasks confirm_install confirm_waiting report_preflight start_task
left_claims = refl

pub right_claims :
    (claim_with_ttl ports "right" "agent" minute
      (claim_with_ttl ports "left" "agent" minute prepared).1).0
    ≡ ok right_task
unfolding prepared left_task right_task next_task run exec claim_locked eligible_tasks find_release
    terminal Release.transition valid_release_transition valid_transition lease Task.transition
    verify_lease int64 ◌+ℤ◌ ◌-ℤ◌ replace str_ltb active find_task find_device get_device get_release
    get_task gets guard ignore lift modify or_crash or_raise pure write_release write_task apply_all
    apply project insert lookup append snapshot new_id clock_now ◌>>=◌ emit commit_task new
    reconcile reconcile_found record_audit recover save_release save_task register_device claim
    claim_with_ttl decide_release dispatch_decision enter_preflight is_eligible list_tasks
    create_release create_tasks confirm_install confirm_waiting report_preflight start_task
right_claims = refl

pub next_chosen : head? (eligible_tasks "left" (pos 2000) prepared.state) ≡ some next_task
unfolding prepared left_task right_task next_task run exec claim_locked eligible_tasks find_release
    terminal Release.transition valid_release_transition valid_transition lease Task.transition
    verify_lease int64 ◌+ℤ◌ ◌-ℤ◌ replace str_ltb active find_task find_device get_device get_release
    get_task gets guard ignore lift modify or_crash or_raise pure write_release write_task apply_all
    apply project insert lookup append snapshot new_id clock_now ◌>>=◌ emit commit_task new
    reconcile reconcile_found record_audit recover save_release save_task register_device claim
    claim_with_ttl decide_release dispatch_decision enter_preflight is_eligible list_tasks
    create_release create_tasks confirm_install confirm_waiting report_preflight start_task
next_chosen = refl

pub rollout-NoPanic : NoPanic ports rollout start
unfolding prepared left_task right_task next_task run exec claim_locked eligible_tasks find_release
    terminal Release.transition valid_release_transition valid_transition lease Task.transition
    verify_lease int64 ◌+ℤ◌ ◌-ℤ◌ replace str_ltb active find_task find_device get_device get_release
    get_task gets guard ignore lift modify or_crash or_raise pure write_release write_task apply_all
    apply project insert lookup append snapshot new_id clock_now ◌>>=◌ emit commit_task new
    reconcile reconcile_found record_audit recover save_release save_task register_device claim
    claim_with_ttl decide_release dispatch_decision enter_preflight is_eligible list_tasks
    create_release create_tasks confirm_install confirm_waiting report_preflight start_task
rollout-NoPanic = ((λ e. cc), ((λ e. cc), ((λ e. cc), ((λ e. cc), tt))))

pub rollout_logged : (run ports rollout start).st.events ≢ []
unfolding prepared left_task right_task next_task run exec claim_locked eligible_tasks find_release
    terminal Release.transition valid_release_transition valid_transition lease Task.transition
    verify_lease int64 ◌+ℤ◌ ◌-ℤ◌ replace str_ltb active find_task find_device get_device get_release
    get_task gets guard ignore lift modify or_crash or_raise pure write_release write_task apply_all
    apply project insert lookup append snapshot new_id clock_now ◌>>=◌ emit commit_task new
    reconcile reconcile_found record_audit recover save_release save_task register_device claim
    claim_with_ttl decide_release dispatch_decision enter_preflight is_eligible list_tasks
    create_release create_tasks confirm_install confirm_waiting report_preflight start_task
rollout_logged e = cc

unfoldable pub left_device : Device
left_device = device_or (lookup "left" prepared.state.devices)

pub left_found : lookup "left" prepared.state.devices ≡ some left_device
unfolding left_device prepared run exec claim_locked eligible_tasks find_release terminal
    Release.transition valid_release_transition valid_transition lease Task.transition verify_lease
    int64 ◌+ℤ◌ ◌-ℤ◌ replace str_ltb active find_task find_device get_device get_release get_task
    gets guard ignore lift modify or_crash or_raise pure write_release write_task apply_all apply
    project insert lookup append snapshot new_id clock_now ◌>>=◌ emit commit_task new reconcile
    reconcile_found record_audit recover save_release save_task register_device claim claim_with_ttl
    decide_release dispatch_decision enter_preflight is_eligible list_tasks create_release
    create_tasks confirm_install confirm_waiting report_preflight start_task
left_found = refl

pub left_online : left_device.online ≡ true
unfolding left_device prepared run exec claim_locked eligible_tasks find_release terminal
    Release.transition valid_release_transition valid_transition lease Task.transition verify_lease
    int64 ◌+ℤ◌ ◌-ℤ◌ replace str_ltb active find_task find_device get_device get_release get_task
    gets guard ignore lift modify or_crash or_raise pure write_release write_task apply_all apply
    project insert lookup append snapshot new_id clock_now ◌>>=◌ emit commit_task new reconcile
    reconcile_found record_audit recover save_release save_task register_device claim claim_with_ttl
    decide_release dispatch_decision enter_preflight is_eligible list_tasks create_release
    create_tasks confirm_install confirm_waiting report_preflight start_task
left_online = refl

-- The first task that a claim of the left device finds.
unfoldable pub head_task : Task
head_task = first_or (head? (eligible_tasks "left" (ports.clock prepared.reads) prepared.state))

pub head_chosen :
    head? (eligible_tasks "left" (ports.clock prepared.reads) prepared.state) ≡ some head_task
unfolding head_task prepared run exec claim_locked eligible_tasks find_release terminal
    Release.transition valid_release_transition valid_transition lease Task.transition verify_lease
    int64 ◌+ℤ◌ ◌-ℤ◌ replace str_ltb active find_task find_device get_device get_release get_task
    gets guard ignore lift modify or_crash or_raise pure write_release write_task apply_all apply
    project insert lookup append snapshot new_id clock_now ◌>>=◌ emit commit_task new reconcile
    reconcile_found record_audit recover save_release save_task register_device claim claim_with_ttl
    decide_release dispatch_decision enter_preflight is_eligible list_tasks create_release
    create_tasks confirm_install confirm_waiting report_preflight start_task
head_chosen = refl

pub head_queued : head_task.status ≡ TaskStatus.queued
unfolding head_task prepared run exec claim_locked eligible_tasks find_release terminal
    Release.transition valid_release_transition valid_transition lease Task.transition verify_lease
    int64 ◌+ℤ◌ ◌-ℤ◌ replace str_ltb active find_task find_device get_device get_release get_task
    gets guard ignore lift modify or_crash or_raise pure write_release write_task apply_all apply
    project insert lookup append snapshot new_id clock_now ◌>>=◌ emit commit_task new reconcile
    reconcile_found record_audit recover save_release save_task register_device claim claim_with_ttl
    decide_release dispatch_decision enter_preflight is_eligible list_tasks create_release
    create_tasks confirm_install confirm_waiting report_preflight start_task
head_queued = refl

pub clock_later : ports.clock prepared.reads ≤ℤ ports.clock (suc prepared.reads)
unfolding prepared run exec claim_locked eligible_tasks find_release terminal Release.transition
    valid_release_transition valid_transition lease Task.transition verify_lease int64 ◌+ℤ◌ ◌-ℤ◌
    replace str_ltb active find_task find_device get_device get_release get_task gets guard ignore
    lift modify or_crash or_raise pure write_release write_task apply_all apply project insert
    lookup append snapshot new_id clock_now ◌>>=◌ emit commit_task new reconcile reconcile_found
    record_audit recover save_release save_task register_device claim claim_with_ttl decide_release
    dispatch_decision enter_preflight is_eligible list_tasks create_release create_tasks
    confirm_install confirm_waiting report_preflight start_task
clock_later = omega arith
