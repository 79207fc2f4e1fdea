-- ===== src/Scenarios/Records.antt =====
-- The theorems on the domain's records, at concrete records.
use go_prod22_go_project.Prelude.{
  some, none, String, ◌≡◌, ◌≢◌, refl, ◌↔◌, ◌⊎◌, true, List, [], ◌∷◌, pos, ◌+◌, ◌*◌, ◌≤◌, ◌≤ℤ◌, ◌<ℤ◌,
  ◌+ℤ◌, ◌-ℤ◌, arith, count, int64,
}
use go_prod22_go_project.Domain.Status.{TaskStatus, ReleaseStatus}
use go_prod22_go_project.Domain.Model.{Task, Release, zero_time, add}
use go_prod22_go_project.Domain.Errors.{ok, err, lease_owner, lease_expired}
use go_prod22_go_project.Domain.Task
use go_prod22_go_project.Domain.Task.{
  transition, schedule_retry, release_lease, verify_lease, lease,
}
use go_prod22_go_project.Domain.Task.Leases.{
  transition_iff, lease_iff, verify_lease_iff, verify-lease, leased_to,
}
use go_prod22_go_project.Domain.Task.Retry.{schedule_retry_backoff, schedule_retry_panics, retrying}
use go_prod22_go_project.Domain.State.{valid_transition}
use go_prod22_go_project.Domain.State.Graph.{◌⟶*◌, requeue_iff}
use go_prod22_go_project.Domain.Release.{capacity, counts_active, recount, terminal}
use go_prod22_go_project.Domain.Release.Transitions.{attempt, attempt-terminal}
use go_prod22_go_project.Domain.Release.Capacity.{capacity_bounds}
use go_prod22_go_project.Domain.Release.Counts.{own, own_in, recount_lem}
use go_prod22_go_project.Domain.Validation.{validate_devices}
use go_prod22_go_project.Domain.Validation.Devices.{AreFresh, validate_devices_iff}
use go_prod22_go_project.Service.Releases.{queued_task}
use go_prod22_go_project.Scenarios.{policy}

abbrev pub agent : String
agent = "agent"

abbrev thief : String
thief = "thief"

abbrev pub waiting : Task
waiting = queued_task "task-1" "rel-1" "device-1" (pos 10)

abbrev pub held : Task
held = leased_to agent (pos 20) (pos 30) waiting

abbrev pub rollout : ReleaseStatus → Release
rollout status = record {
  id = "rel-1";
  version = "2.0.0";
  devices = "device-1" ∷ [];
  batch_size = pos 2;
  max_concurrent = pos 2;
  retry_limit = pos 3;
  pause_window = pos 0;
  rollback = policy;
  status = status;
  created_at = pos 1;
  updated_at = pos 1;
  completed = pos 0;
  failed = pos 0;
}

abbrev moved : Task
moved = record waiting { status = TaskStatus.leased }

abbrev two_ids : List String
two_ids = "a" ∷ "b" ∷ []

transition_iff_example : (Task.transition waiting TaskStatus.leased ≡ ok moved) ↔ (
    (moved ≡ moved)
    × ((TaskStatus.queued ≡ TaskStatus.leased)
        ⊎ (valid_transition TaskStatus.queued TaskStatus.leased ≡ true)))
transition_iff_example = transition_iff waiting moved TaskStatus.leased

lease_iff_example : (lease waiting agent (pos 20) (pos 30) ≡ ok held) ↔ (
    (agent ≢ "")
    × (TaskStatus.queued ≡ TaskStatus.queued)
    × ((pos 0 ≡ zero_time) ⊎ (pos 0 ≤ℤ pos 20))
    × (held ≡ leased_to agent (pos 20) (pos 30) waiting))
unfolding int64 ◌+ℤ◌
lease_iff_example = lease_iff waiting held agent (pos 20) (pos 30)

verify_lease_iff_example :
    (verify_lease held agent (pos 40) ≡ ok tt)
    ↔ ((agent ≡ agent) × ((pos 50 ≡ zero_time) ⊎ (pos 40 ≤ℤ pos 50)))
unfolding int64 ◌+ℤ◌
verify_lease_iff_example = verify_lease_iff held agent (pos 40)

verify-lease_example :
    (pos 40 ≤ℤ add (pos 20) (pos 30) → verify_lease held agent (pos 40) ≡ ok tt)
    × (add (pos 20) (pos 30) <ℤ pos 40 → verify_lease held agent (pos 40) ≡ err lease_expired)
    × (thief ≢ agent → verify_lease held thief (pos 40) ≡ err lease_owner)
unfolding lease transition valid_transition int64 ◌+ℤ◌
verify-lease_example =
    verify-lease waiting held agent thief (pos 20) (pos 40) (pos 30) refl (omega arith)

schedule_retry_panics_example : schedule_retry waiting (pos 60) (pos 5) (pos 3) "late" ≡ (
  record (release_lease waiting) {
    status = TaskStatus.rejected;
    error = "late";
    updated_at = pos 60;
  },
  none,
)
unfolding int64 ◌+ℤ◌
schedule_retry_panics_example =
    schedule_retry_panics waiting (pos 60) (pos 5) (pos 3) "late" refl (omega arith)

schedule_retry_backoff_example :
    (schedule_retry held (pos 60) (pos 5) (pos 3) "late"
      ≡ (retrying "late" (pos 60) (pos 5) held, some true))
    × (5 ≤ 5)
    × (5 ≤ 5 * 256)
unfolding int64 ◌+ℤ◌
schedule_retry_backoff_example =
    schedule_retry_backoff held (pos 60) 5 (pos 3) "late" 0 refl (omega arith) (omega arith)
      (omega arith)

requeue_iff_example :
    (TaskStatus.queued ⟶* TaskStatus.failed)
    × ((TaskStatus.failed ⟶* TaskStatus.queued) ↔ (
        (TaskStatus.failed ≡ TaskStatus.queued)
        ⊎ (TaskStatus.failed ≡ TaskStatus.leased)
        ⊎ (TaskStatus.failed ≡ TaskStatus.rejected)))
requeue_iff_example = requeue_iff TaskStatus.failed

attempt-terminal_example :
    attempt
      (rollout ReleaseStatus.completed)
      (ReleaseStatus.rollback_pending ∷ ReleaseStatus.installing ∷ [])
    ≡ rollout ReleaseStatus.completed
unfolding terminal
attempt-terminal_example =
    attempt-terminal (rollout ReleaseStatus.completed)
      (ReleaseStatus.rollback_pending ∷ ReleaseStatus.installing ∷ []) refl

capacity_bounds_example :
    let r = rollout ReleaseStatus.installing in
    let n = pos (count (counts_active r) (waiting ∷ held ∷ [])) in
    let c = capacity r (waiting ∷ held ∷ []) in
    (pos 0 ≤ℤ c)
    × (c ≤ℤ pos 2)
    × (((pos 2 ≤ℤ n) × (c ≡ pos 0))
        ⊎ ((n <ℤ pos 2) × (c +ℤ n ≤ℤ pos 2) × ((c ≡ pos 2) ⊎ (c +ℤ n ≡ pos 2))))
unfolding ◌-ℤ◌
capacity_bounds_example =
    capacity_bounds (rollout ReleaseStatus.installing) (waiting ∷ held ∷ []) (omega arith)
      (omega arith)

recount_lem_example :
    let r = rollout ReleaseStatus.installing in
    let n = recount r (waiting ∷ held ∷ []) in
    (n.completed ≡ count (own_in r TaskStatus.completed) (waiting ∷ held ∷ []))
    × (n.failed ≡ count (own_in r TaskStatus.failed) (waiting ∷ held ∷ []))
    × (n.completed + n.failed + n.pending ≡ count (own r) (waiting ∷ held ∷ []))
recount_lem_example = recount_lem (rollout ReleaseStatus.installing) (waiting ∷ held ∷ [])

validate_devices_iff_example :
    (validate_devices two_ids ≡ ok tt) ↔ ((two_ids ≢ []) × AreFresh [] two_ids)
validate_devices_iff_example = validate_devices_iff two_ids
