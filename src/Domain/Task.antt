-- ===== src/Domain/Task.antt =====
-- The methods of a task (internal/domain/lifecycle.go). A method that changes the task returns the
-- new record; where it returns an error, the source has written nothing before.
pub mod Leases
pub mod Retry
use go_prod22_go_project.Prelude.{
  ℕ, ◌^◌, ℤ, pos, negsuc, ◌+ℤ◌, ◌-ℤ◌, ◌*ℤ◌, ltb_ℤ, int64, String, Bool, true, false, ◌==◌, ◌||◌,
  ◌&&◌, not, if◌then◌else◌, Option, none, some, string_eq, int_eq,
}
use go_prod22_go_project.Domain.Status.{TaskStatus, task_status_eq}
use go_prod22_go_project.Domain.Model.{Task, Time, Duration, zero_time, is_zero, before, after, add}
use go_prod22_go_project.Domain.Errors.{
  Result, ok, err, panic, message, invalid_task_transition, cannot_be_leased, lease_owner,
  lease_expired,
}
use go_prod22_go_project.Domain.State.{valid_transition}

unfoldable pub transition : Task → TaskStatus → Result Task
transition t to =
    if t.status == to
    then ok t
    else if not (valid_transition t.status to)
    then err (invalid_task_transition t.status to)
    else ok (record t { status = to })

abbrev grant : String → Time → Duration → Result Task → Result Task
grant agent now ttl (ok t) = ok (record t {
  lease_owner = agent;
  lease_until = add now ttl;
  attempts = int64 (t.attempts +ℤ pos 1);
  updated_at = now;
})
grant agent now ttl (err e) = err e
grant agent now ttl panic = panic

unfoldable pub lease : Task → String → Time → Duration → Result Task
unfolding transition
lease t agent now ttl =
    if agent == ""
    then err (message "agent is required")
    else if not (t.status == TaskStatus.queued) && not (t.status == TaskStatus.rejected)
    then err (cannot_be_leased t.status)
    else if not (is_zero t.next_retry) && before now t.next_retry
    then err (message "retry backoff is active")
    else grant agent now ttl (transition t TaskStatus.leased)

unfoldable pub verify_lease : Task → String → Time → Result (Unit {0})
verify_lease t agent now =
    if not (t.lease_owner == agent)
    then err lease_owner
    else if not (is_zero t.lease_until) && after now t.lease_until
    then err lease_expired
    else ok tt

abbrev pub release_lease : Task → Task
release_lease t = record t { lease_owner = ""; lease_until = zero_time }

abbrev pub min : ℤ → ℤ → ℤ
min a b = if ltb_ℤ a b then a else b

-- `base * time.Duration(1<<n)`: a negative shift count panics.
abbrev delay : Duration → ℤ → Option Duration
delay base (pos n) = some (int64 (base *ℤ pos (2 ^ n)))
delay base (negsuc n) = none

abbrev retry_at : Task → Time → Option Duration → Task × Option Bool
retry_at t now (some d) = (record t { next_retry = add now d }, some true)
retry_at t now none = (t, none)

-- The task after the call, and what the call returns: `none` is a panic, before which the task was
-- written.
unfoldable pub schedule_retry : Task → Time → Duration → ℤ → String → Task × Option Bool
schedule_retry t now base limit reason =
    let cleared = record (release_lease t) { error = reason; updated_at = now } in
    if ltb_ℤ limit t.attempts
    then (record cleared { status = TaskStatus.failed; next_retry = zero_time }, some false)
    else retry_at (record cleared { status = TaskStatus.rejected }) now
        (delay base (min (int64 (t.attempts -ℤ pos 1)) (pos 8)))

unfoldable pub lease_active : Task → Time → Bool
lease_active t now = not (is_zero t.lease_until) && before now t.lease_until

unfoldable pub retry_ready : Task → Time → Bool
retry_ready t now = is_zero t.next_retry || not (before now t.next_retry)

unfoldable pub is_active : Task → Bool
is_active t =
    t.status == TaskStatus.leased
    || t.status == TaskStatus.installing
    || t.status == TaskStatus.awaiting
    || t.status == TaskStatus.rolling_back

unfoldable pub is_terminal : Task → Bool
is_terminal t =
    t.status == TaskStatus.completed
    || t.status == TaskStatus.failed
    || t.status == TaskStatus.rolled_back
