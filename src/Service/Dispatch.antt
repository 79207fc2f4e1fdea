-- ===== src/Service/Dispatch.antt =====
-- Which tasks may run, and their claim by an agent (internal/service/dispatch.go, query.go).
pub mod Decision
pub mod Order
pub mod Eligible
pub mod Claims
use go_prod22_go_project.Prelude.{
  ℤ, ℕ, String, Option, none, some, Bool, true, false, ◌==◌, ◌||◌, ◌&&◌, not, if◌then◌else◌, List,
  [], ◌∷◌, keep, sort_by, length, pos, ◌-ℤ◌, int64, ltb_ℤ, leb_ℤ, string_eq, int_eq,
}
use go_prod22_go_project.Prelude.Map.{lookup, values}
use go_prod22_go_project.Prelude.Text.{str_ltb}
use go_prod22_go_project.Domain.Status.{
  TaskStatus, ReleaseStatus, task_status_eq, release_status_eq,
}
use go_prod22_go_project.Domain.Model.{
  Release, Device, Task, Time, Duration, zero_time, is_zero, before, hour, minute,
}
use go_prod22_go_project.Domain.Errors.{Error, not_found, no_task, message}
use go_prod22_go_project.Domain.Task
use go_prod22_go_project.Domain.Release
use go_prod22_go_project.Domain.Release.{terminal, should_rollback}
use go_prod22_go_project.Scheduler.{active}
use go_prod22_go_project.Store.{State}
use go_prod22_go_project.Service.Base.{
  Ports, Cmd, pure, raise, lift, gets, guard, or_raise, find_device, find_release, clock_now, ◌>>=◌,
  ◌>>◌,
}
use go_prod22_go_project.Service.Core.{save_task, save_release}

unfoldable pub list_tasks : String → State → List Task
list_tasks release st = keep (λ t. t.release_id == release) (values st.tasks)

pub record DispatchDecision : Type 0 where
  pub allowed : Bool
  pub reason : String
  pub capacity : ℤ
  pub active : ℕ

abbrev pub limited : ℤ → ℤ → ℤ
limited capacity batch_size =
    let capped = if ltb_ℤ batch_size capacity then batch_size else capacity in
    if ltb_ℤ capped (pos 0) then pos 0 else capped

abbrev pub refused : String → ℤ → ℕ → DispatchDecision
refused reason capacity active = record {
  allowed = false;
  reason = reason;
  capacity = capacity;
  active = active;
}

unfoldable pub decide_release : Release → ℕ → DispatchDecision
unfolding terminal
decide_release r active =
    let capacity = limited (int64 (r.max_concurrent -ℤ pos active)) r.batch_size in
    if terminal r
    then refused "release is terminal" capacity active
    else if r.status == ReleaseStatus.paused
    then refused "release is paused" capacity active
    else if r.status == ReleaseStatus.rollback_pending
    then refused "release is rolling back" capacity active
    else if leb_ℤ capacity (pos 0)
    then refused "concurrency limit reached" (pos 0) active
    else record { allowed = true; reason = ""; capacity = capacity; active = active }

abbrev decide_found : Option Release → List Task → DispatchDecision
decide_found none tasks = refused "release not found" (pos 0) 0
decide_found (some r) tasks = decide_release r (active tasks)

unfoldable pub dispatch_decision : String → State → DispatchDecision
unfolding list_tasks active decide_release
dispatch_decision release st = decide_found (lookup release st.releases) (list_tasks release st)

-- The test of the loop of `EligibleTasks`.
unfoldable pub is_eligible : String → Time → State → Task → Bool
unfolding dispatch_decision
is_eligible device now st t =
    t.device_id == device
    && (t.status == TaskStatus.queued || t.status == TaskStatus.rejected)
    && (is_zero t.next_retry || not (before now t.next_retry))
    && (dispatch_decision t.release_id st).allowed

-- When the task's release was created. An eligible task has a release.
abbrev created : Option Release → Time
created none = zero_time
created (some r) = r.created_at

abbrev pub release_age : State → Task → Time
release_age st t = created (lookup t.release_id st.releases)

-- Older releases first, and tasks of one creation time by their ids.
abbrev pub dispatch_order : State → Task → Task → Bool
dispatch_order st a b =
    if release_age st a == release_age st b
    then str_ltb a.id b.id
    else before (release_age st a) (release_age st b)

unfoldable pub eligible_tasks : String → Time → State → List Task
unfolding is_eligible
eligible_tasks device now st =
    sort_by (dispatch_order st) (keep (is_eligible device now st) (values st.tasks))

abbrev pub head? : List Task → Option Task
head? [] = none
head? (t ∷ ts) = some t

module _ {S : Type 0} (ports : Ports S) where
  -- A queued release enters its preflight with its first claim.
  unfoldable pub enter_preflight : String → Release → Cmd S (Unit {0})
  enter_preflight key r = if not (r.status == ReleaseStatus.queued) then pure tt else do
    r' ← lift (Release.transition r ReleaseStatus.preflight)
    now ← clock_now ports
    save_release ports key r'.id (record r' { updated_at = now })

  -- What `claimMu` guards.
  unfoldable pub claim_locked : String → String → Duration → Cmd S Task
  claim_locked device agent ttl = do
    now ← clock_now ports
    items ← gets (eligible_tasks device now)
    t ← or_raise (head? items) no_task
    r ← find_release t.release_id (message "task release is missing")
    decision ← gets (dispatch_decision t.release_id)
    guard decision.allowed no_task
    leased ← clock_now ports
    t' ← lift (Task.lease t agent leased ttl)
    save_task ports t.id t'.id t'
    enter_preflight t.release_id r
    pure t'

  unfoldable pub claim_with_ttl : String → String → Duration → Cmd S Task
  claim_with_ttl device agent ttl = do
    guard (not (device == "" || agent == "")) (message "device and agent are required")
    guard (ltb_ℤ (pos 0) ttl && not (ltb_ℤ hour ttl)) (message "invalid lease duration")
    d ← find_device device not_found
    guard d.online (message "device is offline")
    claim_locked device agent ttl

  unfoldable pub claim : String → String → Cmd S Task
  unfolding claim_with_ttl
  claim device agent = claim_with_ttl device agent (pos 300000000000)
