-- ===== src/Domain/Task/Leases.antt =====
-- Who may lease a task, and who holds its lease.
use go_prod22_go_project.Prelude.{
  ◌≡◌, ◌≢◌, ◌↔◌, ◌⊎◌, true, arith, ◌+ℤ◌, pos, int64, ◌<ℤ◌, ◌≤ℤ◌, String, string_eq, eq_iff,
}
use go_prod22_go_project.Domain.Status.{
  TaskStatus, task_status_eq, task_rank_injective, task_rank_refl,
}
use go_prod22_go_project.Domain.Model.{Task, Time, Duration, zero_time, add}
use go_prod22_go_project.Domain.Errors.{ok, err, lease_owner, lease_expired}
use go_prod22_go_project.Domain.State.{valid_transition}
use go_prod22_go_project.Domain.Task.{transition, lease, verify_lease}

-- The task that a lease leaves behind.
abbrev pub leased_to : String → Time → Duration → Task → Task
leased_to agent now ttl t = record t {
  status = TaskStatus.leased;
  lease_owner = agent;
  lease_until = add now ttl;
  attempts = int64 (t.attempts +ℤ pos 1);
  updated_at = now;
}

-- `Transition` succeeds exactly when the status stays or moves by a valid transition, and then
-- changes the status alone.
pub transition_iff :
    (t u : Task) (to : TaskStatus)
    → (transition t to ≡ ok u)
      ↔ ((u ≡ record t { status = to }) × ((t.status ≡ to) ⊎ (valid_transition t.status to ≡ true)))
unfolding transition
transition_iff t u to = (
  (λ h. ground (arith, task_rank_injective t.status to)),
  (λ h. ground (arith, task_rank_injective t.status to, task_rank_refl t.status to)),
)

-- `Lease` succeeds exactly for a named agent, a queued task and no backoff that is still running;
-- a rejected task, which its first test lets through, is refused by its transition.
pub lease_iff :
    (t u : Task) (agent : String) (now : Time) (ttl : Duration)
    → (lease t agent now ttl ≡ ok u) ↔ (
        (agent ≢ "")
        × (t.status ≡ TaskStatus.queued)
        × ((t.next_retry ≡ zero_time) ⊎ (t.next_retry ≤ℤ now))
        × (u ≡ leased_to agent now ttl t))
unfolding lease valid_transition
lease_iff t u agent now ttl =
    ((λ h. ground (arith, eq_iff agent "")), (λ h. ground (arith, eq_iff agent "")))

-- `VerifyLease` lets through exactly the owner, up to the end of the lease, or for good where the
-- end is the zero time.
pub verify_lease_iff :
    (t : Task) (agent : String) (now : Time)
    → (verify_lease t agent now ≡ ok tt)
      ↔ ((t.lease_owner ≡ agent) × ((t.lease_until ≡ zero_time) ⊎ (now ≤ℤ t.lease_until)))
unfolding verify_lease
verify_lease_iff t agent now = (
  (λ h. ground (arith, eq_iff t.lease_owner agent)),
  (λ h. ground (arith, eq_iff t.lease_owner agent)),
)

-- A lease that was granted, and that ends after the zero time, is verified for its agent up to its
-- end, refused as run out after it, and refused to every other agent.
pub verify-lease :
    (t u : Task) (agent other : String) (now later : Time) (ttl : Duration)
    → lease t agent now ttl ≡ ok u
    → pos 0 <ℤ add now ttl
    → (later ≤ℤ add now ttl → verify_lease u agent later ≡ ok tt)
      × (add now ttl <ℤ later → verify_lease u agent later ≡ err lease_expired)
      × (other ≢ agent → verify_lease u other later ≡ err lease_owner)
unfolding verify_lease
verify-lease t u agent other now later ttl h p =
    let (named, queued, rested, e) = (lease_iff t u agent now ttl).0 h in
    rw e (
      (λ q. ground (arith, eq_iff agent agent)),
      (λ q. ground (arith, eq_iff agent agent)),
      (λ q. ground (arith, eq_iff agent other)),
    )
