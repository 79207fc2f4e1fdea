-- ===== src/Service/Dispatch/Decision.antt =====
-- When a release may run tasks.
use go_prod22_go_project.Prelude.{
  ℕ, String, some, true, false, ◌==◌, ◌≡◌, ◌≢◌, refl, ap, ◌↔◌, inl, inr, Option-cases, [], ◌∷◌,
  keep, count, pos, ◌<ℤ◌, ◌-ℤ◌, IsInt64, int64_fits, arith, string_eq, eq_iff,
}
use go_prod22_go_project.Prelude.Map.{Map, lookup, insert, values}
use go_prod22_go_project.Domain.Status.{ReleaseStatus}
use go_prod22_go_project.Domain.Model.{Release, Task, Time, Duration}
use go_prod22_go_project.Domain.Errors.{ok}
use go_prod22_go_project.Domain.Task.{lease}
use go_prod22_go_project.Domain.Task.Leases.{lease_iff}
use go_prod22_go_project.Domain.Release.{terminal}
use go_prod22_go_project.Scheduler.{active, is_running}
use go_prod22_go_project.Store.{State}
use go_prod22_go_project.Service.Dispatch.{dispatch_decision, decide_release, list_tasks}

decide_allowed_iff :
    (r : Release) (n : ℕ)
    → IsInt64 (r.max_concurrent -ℤ pos n)
    → ((decide_release r n).allowed ≡ true) ↔ (
        (terminal r ≡ false)
        × (r.status ≢ ReleaseStatus.paused)
        × (r.status ≢ ReleaseStatus.rollback_pending)
        × (pos n <ℤ r.max_concurrent)
        × (pos 0 <ℤ r.batch_size))
unfolding decide_release ◌-ℤ◌
decide_allowed_iff r n fits = rw (int64_fits _ fits) ((λ h. ground arith), (λ h. ground arith))

-- A dispatch is only allowed for a release that exists.
pub allowed_found :
    (release : String) (st : State)
    → (dispatch_decision release st).allowed ≡ true
    → (r : Release) × (lookup release st.releases ≡ some r)
unfolding dispatch_decision
allowed_found release st h = elim (Option-cases (lookup release st.releases)) [
  | inl e ↦ cc (rw e at h)
  | inr (r, e) ↦ (r, e)
]

-- If a release of this id exists, let its concurrency limit less its installing and awaiting tasks
-- fit a 64-bit integer. Then a dispatch is allowed exactly for a release that exists, is neither
-- terminal nor paused nor rolling back, has a positive batch size, and has fewer installing and
-- awaiting tasks than its concurrency limit.
pub dispatch_allowed_iff :
    (release : String) (st : State)
    → ((r : Release)
        → lookup release st.releases ≡ some r
        → IsInt64 (r.max_concurrent -ℤ pos (active (list_tasks release st))))
    → ((dispatch_decision release st).allowed ≡ true) ↔ (
        (r : Release) × (lookup release st.releases ≡ some r)
        × (terminal r ≡ false)
        × (r.status ≢ ReleaseStatus.paused)
        × (r.status ≢ ReleaseStatus.rollback_pending)
        × (pos (active (list_tasks release st)) <ℤ r.max_concurrent)
        × (pos 0 <ℤ r.batch_size))
unfolding dispatch_decision
dispatch_allowed_iff release st fits = (
  (λ h.
      let (r, e) = allowed_found release st h in
      let p = (decide_allowed_iff r _ (fits r e)).0 (rw e at h) in (r, e, p.0, p.1, p.2, p.3, p.4)),
  (λ q. rw q.1 ((decide_allowed_iff q.0 _ (fits q.0 q.1)).1 (q.2, q.3, q.4, q.5, q.6))),
)

-- Replacing a task that is not running by one that is not changes no count of running tasks.
same_active :
    (release k : String) (t u : Task) (m : Map Task)
    → lookup k m ≡ some t
    → is_running t ≡ false
    → is_running u ≡ false
    → count is_running (keep (λ x. x.release_id == release) (values (insert k u m)))
      ≡ count is_running (keep (λ x. x.release_id == release) (values m))
unfolding lookup insert
same_active release k t u [] e p q = ground arith
same_active release k t u ((j, w) ∷ m) e p q =
    ground (arith, eq_iff j k, same_active release k t u m)

-- A lease takes up no capacity: when a task of the state is leased, the dispatch decision of every
-- release is the same after the lease as before.
pub dispatch_decision-lease :
    (release : String) (st : State) (t u : Task) (agent : String) (now : Time) (ttl : Duration)
    → lookup t.id st.tasks ≡ some t
    → lease t agent now ttl ≡ ok u
    → dispatch_decision release (record st { tasks = insert u.id u st.tasks })
      ≡ dispatch_decision release st
unfolding dispatch_decision
dispatch_decision-lease release st t u agent now ttl found leased =
    let (_, queued, _, e) = (lease_iff t u agent now ttl).0 leased in
    let same = same_active release u.id t u st.tasks (rw e found) (rw queued refl) (rw e refl) in
    elim (Option-cases (lookup release st.releases)) [
      | inl p ↦ rw p refl
      | inr (r, p) ↦ rw p (ap (decide_release r) same)
    ]
