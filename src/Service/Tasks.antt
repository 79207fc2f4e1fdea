-- ===== src/Service/Tasks.antt =====
-- The commands of an edge agent (internal/service/service.go, workflow.go, reporting.go,
-- rollback.go).
use go_prod22_go_project.Prelude.{
  ℤ, String, Option, some, Bool, true, false, ◌==◌, ◌||◌, ◌&&◌, not, if◌then◌else◌, pos, ◌+ℤ◌, ◌*ℤ◌,
  int64, ltb_ℤ, string_eq, int_eq,
}
use go_prod22_go_project.Prelude.Text.{trim_space}
use go_prod22_go_project.Domain.Status.{TaskStatus, task_status_eq}
use go_prod22_go_project.Domain.Model.{Task, Time, Duration, add, after, second, minute, hour}
use go_prod22_go_project.Domain.Errors.{Result, ok, err, not_found, conflict, message}
use go_prod22_go_project.Domain.Task
use go_prod22_go_project.Domain.Task.{verify_lease, schedule_retry, release_lease}
use go_prod22_go_project.Service.Base.{
  Ports, Cmd, pure, lift, guard, ignore, find_task, find_release, deref_release, clock_now, ◌>>=◌,
  ◌>>◌,
}
use go_prod22_go_project.Service.Core.{commit_task, save_task, reconcile}

-- The `switch` of `UpdateTask`.
unfoldable pub act : Task → String → String → Time → Result Task
act t action reason now =
    if action == "ack"
    then if not (t.status == TaskStatus.leased)
      then err (message "task not leased")
      else ok (record t { status = TaskStatus.installing })
    else if action == "reject"
    then ok (record t {
      status = TaskStatus.rejected;
      error = reason;
      next_retry = add now (int64 (int64 (t.attempts +ℤ pos 1) *ℤ minute));
    })
    else if action == "complete"
    then if not (t.status == TaskStatus.installing) && not (t.status == TaskStatus.awaiting)
      then err (message "task not active")
      else ok (record (release_lease t) { status = TaskStatus.completed })
    else err (message "unknown task action")

abbrev pub noted : String → Task → Task
noted detail t = if detail == "" then t else record t { error = detail }

abbrev pub progressed : ℤ → Task → Task
progressed percent t = if percent == pos 100 then record t { status = TaskStatus.awaiting } else t

-- The task after `FailTask`'s writes; only `ScheduleRetry` can panic among them.
unfoldable pub failed_task : Task → Bool → Time → ℤ → String → Task × Option Bool
failed_task t true now limit reason = schedule_retry t now second limit reason
failed_task t false now limit reason = (
  record (release_lease t) { status = TaskStatus.failed; error = reason; updated_at = now },
  some false,
)

module _ {S : Type 0} (ports : Ports S) where
  unfoldable pub update_task : String → String → String → Cmd S Task
  update_task id action reason = do
    t ← find_task id (message "task not found")
    now ← clock_now ports
    t' ← lift (act t action reason now)
    let u : Task = record t' { updated_at = now }
    ignore (save_task ports id u.id u)
    reconcile ports u.release_id
    pure u

  unfoldable pub start_task : String → String → Cmd S (Unit {0})
  start_task id agent = do
    t ← find_task id not_found
    now ← clock_now ports
    lift (verify_lease t agent now)
    t' ← lift (Task.transition t TaskStatus.installing)
    updated ← clock_now ports
    save_task ports id id (record t' { updated_at = updated })

  unfoldable pub reject_task : String → String → String → Cmd S (Unit {0})
  reject_task id agent reason = do
    t ← find_task id not_found
    now ← clock_now ports
    lift (verify_lease t agent now)
    r ← find_release t.release_id (message "release missing")
    later ← clock_now ports
    commit_task ports id id (schedule_retry t later second r.retry_limit (trim_space reason))

  unfoldable pub report_progress : String → String → ℤ → String → Cmd S (Unit {0})
  report_progress id agent percent detail = do
    guard (not (ltb_ℤ percent (pos 0) || ltb_ℤ (pos 100) percent))
        (message "progress must be between 0 and 100")
    t ← find_task id not_found
    now ← clock_now ports
    lift (verify_lease t agent now)
    guard (t.status == TaskStatus.installing || t.status == TaskStatus.awaiting) conflict
    updated ← clock_now ports
    save_task ports id id (record (progressed percent (noted detail t)) { updated_at = updated })

  unfoldable pub report_preflight : String → Bool → String → Cmd S (Unit {0})
  report_preflight id passed detail = do
    t ← find_task id not_found
    guard (t.status == TaskStatus.installing || t.status == TaskStatus.leased) conflict
    now ← clock_now ports
    let u : Task =
        if passed
        then record t { status = TaskStatus.awaiting; error = ""; updated_at = now }
        else record t { status = TaskStatus.failed; error = detail; updated_at = now }
    save_task ports id u.id u
    reconcile ports u.release_id

  unfoldable pub confirm_waiting : String → String → Task → Cmd S (Unit {0})
  confirm_waiting id agent t = do
    guard (t.lease_owner == agent) (message "lease is not owned by agent")
    now ← clock_now ports
    guard (not (after now t.lease_until)) (message "lease is not owned by agent")
    guard (t.status == TaskStatus.awaiting) conflict
    updated ← clock_now ports
    let u : Task = record (release_lease t) { status = TaskStatus.completed; updated_at = updated }
    save_task ports id u.id u
    reconcile ports u.release_id

  unfoldable pub confirm_install : String → String → Cmd S (Unit {0})
  confirm_install id agent = do
    t ← find_task id not_found
    if t.status == TaskStatus.completed then pure tt else confirm_waiting id agent t

  unfoldable pub retry_task : String → Cmd S (Unit {0})
  retry_task id = do
    t ← find_task id not_found
    guard (t.status == TaskStatus.failed || t.status == TaskStatus.rejected) conflict
    r ← deref_release t.release_id
    guard (not (ltb_ℤ r.retry_limit t.attempts)) (message "retry limit reached")
    next ← clock_now ports
    updated ← clock_now ports
    save_task ports id id (record t {
      status = TaskStatus.queued;
      next_retry = next;
      error = "";
      updated_at = updated;
    })

  unfoldable pub renew_lease : String → String → Duration → Cmd S Task
  renew_lease id agent ttl = do
    guard (ltb_ℤ (pos 0) ttl && not (ltb_ℤ hour ttl))
        (message "lease extension must be between zero and one hour")
    t ← find_task id not_found
    now ← clock_now ports
    lift (verify_lease t agent now)
    guard
        (t.status == TaskStatus.leased
          || t.status == TaskStatus.installing
          || t.status == TaskStatus.awaiting
          || t.status == TaskStatus.rolling_back)
        conflict
    let u : Task = record t { lease_until = add now ttl; updated_at = now }
    save_task ports id u.id u
    pure u

  unfoldable pub fail_held : String → String → String → Bool → Task → Cmd S Task
  fail_held id agent reason retryable t = do
    now ← clock_now ports
    lift (verify_lease t agent now)
    r ← find_release t.release_id (message "task release is missing")
    later ← clock_now ports
    let outcome = failed_task t retryable later r.retry_limit reason
    commit_task ports id outcome.0.id outcome
    reconcile ports outcome.0.release_id
    pure outcome.0

  unfoldable pub fail_task : String → String → String → Bool → Cmd S Task
  fail_task id agent reason retryable = do
    t ← find_task id not_found
    if t.status == TaskStatus.failed && t.error == reason
        then pure t
        else fail_held id agent reason retryable t
