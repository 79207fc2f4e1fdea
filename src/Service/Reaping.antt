-- ===== src/Service/Reaping.antt =====
-- What a reaping does (`ReapExpiredDetailed`, internal/service/rollback.go).
pub mod Outcomes
pub mod Loop
use go_prod22_go_project.Prelude.{
  ◌≢◌, ◌↔◌, ◌<ℤ◌, ◌≤ℤ◌, eq_iff, suc, String, false, not, ◌∙◌, ◌≡◌, refl, ap, List, [], ◌∷◌, arith,
  inl, inr, Option-cases, count, if◌then◌else◌, sort_by,
}
use go_prod22_go_project.Prelude.Map.{lookup, values}
use go_prod22_go_project.Prelude.Text.{str_ltb}
use go_prod22_go_project.Domain.Model.{Release, Task, Time}
use go_prod22_go_project.Domain.Status.{TaskStatus}
use go_prod22_go_project.Domain.Task.{is_active, verify_lease}
use go_prod22_go_project.Domain.Errors.{err, lease_owner, ok}
use go_prod22_go_project.Service.Base.{
  Ports, Service, pure, ignore, gets, get_release, clock_now, ◌>>=◌,
}
use go_prod22_go_project.Service.Core.{reconcile, reconcile_found}
use go_prod22_go_project.Service.Stored.{reconcile_tasks}
use go_prod22_go_project.Service.WellFormed.{WellFormed}
use go_prod22_go_project.Service.Rollback.{
  ReapResult, is_expired, reaped, no_reaps, reap_tasks, reconcile_all, reap_expired_detailed,
}
use go_prod22_go_project.Service.Reaping.Loop.{
  save_release_swallowed, reap_tasks_lem, reap_tasks_tasks,
}
use go_prod22_go_project.Service.Reaping.Outcomes.{is_failing, is_requeued, outcome, landed_all}
use mathlib.Core.Option.{map}

module _ {S : Type 0} (ports : Ports S) where
  -- A reconcile passes on no error, and panics nowhere.
  reconcile_ok : (id : String) (s : Service S) → (reconcile ports id s).0 ≡ ok tt
  unfolding reconcile reconcile_found get_release gets clock_now ignore pure ◌>>=◌
  reconcile_ok id s = elim (Option-cases (lookup id s.state.releases)) [
    | inl p ↦ rw p refl
    | inr (r, p) ↦ rw p (save_release_swallowed ports id r.id _ (record s { reads = suc s.reads }))
  ]

  reconcile_all_lem :
      (ids : List String) (s : Service S)
      → ((reconcile_all ports ids s).0 ≡ ok tt)
        × ((reconcile_all ports ids s).1.state.tasks ≡ s.state.tasks)
  unfolding reconcile_all pure ◌>>=◌
  reconcile_all_lem [] s = (refl, refl)
  reconcile_all_lem (id ∷ ids) s =
      let s' = (reconcile ports id s).1 in
      let (done, kept) = reconcile_all_lem ids s' in
      rw (reconcile_ok id s) (done, kept ∙ reconcile_tasks ports id s)

  -- What a reaping returns, and the tasks after it.
  reap_parts :
      (s : Service S)
      → let now = ports.clock s.reads in
        let (out, s') =
          reap_tasks ports now s.state.tasks no_reaps (record s { reads = suc s.reads }) in
        (found : ReapResult) × (out ≡ ok found)
        × ((reap_expired_detailed ports s).0
            ≡ ok (record found { releases = sort_by str_ltb found.releases }))
        × (found.failed ≡ count (is_failing s.state.releases now) (values s.state.tasks))
        × (found.requeued ≡ count (is_requeued s.state.releases now) (values s.state.tasks))
        × ((reap_expired_detailed ports s).1.state.tasks ≡ s'.state.tasks)
  unfolding reap_expired_detailed clock_now gets pure ◌>>=◌
  reap_parts s =
      let s₁ : Service S = record s { reads = suc s.reads } in
      let now = ports.clock s.reads in
      let (out, done, failed, requeued) = reap_tasks_lem ports now s.state.tasks no_reaps s₁ in
      let (all_done, kept) =
        reconcile_all_lem out.releases (reap_tasks ports now s.state.tasks no_reaps s₁).1 in
      (out, done, rw (done, all_done) refl, omega arith, omega arith, rw (done, all_done) kept)

  -- In a well-formed service, whatever the store does, `ReapExpiredDetailed` returns. It counts as
  -- failed the active tasks outside a rollback whose lease had run out at the clock's reading and
  -- that had more attempts than their release allows, and as requeued the other ones whose lease
  -- had run out, in both counts those whose release exists. Afterwards the map of tasks holds, under
  -- every key that it held a task under, that task with its expired lease taken away as `reaped`
  -- does it, or unchanged if its lease had not run out or its release does not exist, and no other.
  pub reap_expired_lem :
      (s : Service S) (key : String)
      → WellFormed s.state
      → let now = ports.clock s.reads in
        let (result, s') = reap_expired_detailed ports s in
        (out : ReapResult) × (result ≡ ok out)
        × (out.failed ≡ count (is_failing s.state.releases now) (values s.state.tasks))
        × (out.requeued ≡ count (is_requeued s.state.releases now) (values s.state.tasks))
        × (lookup key s'.state.tasks
            ≡ map (outcome s.state.releases now) (lookup key s.state.tasks))
  reap_expired_lem s key w =
      let s₁ : Service S = record s { reads = suc s.reads } in
      let now = ports.clock s.reads in
      let (out, _, done, failed, requeued, tasks) = reap_parts s in
      let written =
        reap_tasks_tasks ports now key s.state.tasks no_reaps s₁ w.tasks_keyed w.tasks_unique
          (λ k t found. found) in
      (
        record out { releases = sort_by str_ltb out.releases },
        done,
        failed,
        requeued,
        ap (lookup key) tasks
            ∙ written
            ∙ landed_all s.state.releases now (lookup key s.state.tasks),
      )

-- A task that was reaped has no lease that could run out or that a named agent could use; it has
-- failed exactly where it was not in a rollback and had more attempts than its release allows, it
-- waits for its rollback again exactly where it was in one, and otherwise it is queued.
pub reaped_lem :
    (now later : Time) (r : Release) (t : Task) (agent : String)
    → agent ≢ ""
    → let u = reaped now r t in
      (is_expired later u ≡ false)
      × (verify_lease u agent later ≡ err lease_owner)
      × ((u.status ≡ TaskStatus.failed)
          ↔ ((t.status ≢ TaskStatus.rolling_back) × (r.retry_limit <ℤ t.attempts)))
      × ((u.status ≡ TaskStatus.rollback_queued) ↔ (t.status ≡ TaskStatus.rolling_back))
      × ((u.status ≡ TaskStatus.queued)
          ↔ ((t.status ≢ TaskStatus.rolling_back) × (t.attempts ≤ℤ r.retry_limit)))
unfolding reaped is_expired is_active verify_lease
reaped_lem now later r t agent named = (
  ground arith,
  ground (arith, eq_iff "" agent),
  ((λ h. ground arith), (λ h. ground arith)),
  ((λ h. ground arith), (λ h. ground arith)),
  ((λ h. ground arith), (λ h. ground arith)),
)
