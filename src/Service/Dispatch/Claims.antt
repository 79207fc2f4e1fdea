-- ===== src/Service/Dispatch/Claims.antt =====
-- What a claim does.
use go_prod22_go_project.Prelude.{
  suc, String, some, true, ◌==◌, ◌≡◌, refl, ◌∙◌, ap, ◌⊎◌, inl, inr, Bool-cases, arith, string_eq,
  eq_iff, subst,
}
use go_prod22_go_project.Prelude.Map.{lookup, replace, lookup-insert}
use go_prod22_go_project.Domain.Status.{ReleaseStatus, release_status_eq, release_rank_injective}
use go_prod22_go_project.Domain.Model.{Release, Task, Duration}
use go_prod22_go_project.Domain.Errors.{ok, no_task, message}
use go_prod22_go_project.Domain.Task
use go_prod22_go_project.Domain.Release
use go_prod22_go_project.Events.{task_data, release_data}
use go_prod22_go_project.Service.Base.{
  Ports, Service, Cmd, pure, lift, gets, guard, or_raise, find_release, clock_now, modify,
  write_task, ◌>>◌, write_release, or_crash, ◌>>=◌,
}
use go_prod22_go_project.Service.Core.{apply, project, commit_task, save_task, save_release}
use go_prod22_go_project.Service.Inversion.{
  bind_ok, continue_ok, guard_ok, or_raise_ok, find_release_ok, emit_ok,
}
use go_prod22_go_project.Service.WellFormed.{WellFormed}
use go_prod22_go_project.Service.Dispatch.{
  is_eligible, eligible_tasks, dispatch_decision, head?, enter_preflight, claim_locked,
}
use go_prod22_go_project.Service.Dispatch.Eligible.{eligible_stands}

pub queued_to_preflight :
    (r : Release)
    → r.status ≡ ReleaseStatus.queued
    → Release.transition r ReleaseStatus.preflight
      ≡ ok (record r { status = ReleaseStatus.preflight })
unfolding Release.transition
queued_to_preflight r q = ground arith

task_of : {t u : Task} → ok t ≡ ok u → t ≡ u
task_of e = cc e

module _ {S : Type 0} (ports : Ports S) where
  -- A task that was saved stands in the state.
  save_task_ok :
      (key aggregate : String) (t : Task) (s : Service S) {u : Unit {0}}
      → (save_task ports key aggregate t s).0 ≡ ok u
      → lookup t.id (save_task ports key aggregate t s).1.state.tasks ≡ some t
  unfolding save_task commit_task write_task modify or_crash ◌>>=◌ apply project
  save_task_ok key aggregate t s h = rw (emit_ok ports "task.updated" aggregate (task_data t) _ h) (
      rw (lookup-insert t.id t.id t (replace key t s.state.tasks))
        (ground (arith, eq_iff t.id t.id)))

  save_release_tasks :
      (key aggregate : String) (r : Release) (s : Service S) {u : Unit {0}}
      → (save_release ports key aggregate r s).0 ≡ ok u
      → (save_release ports key aggregate r s).1.state.tasks ≡ s.state.tasks
  unfolding save_release write_release modify ◌>>=◌ apply project
  save_release_tasks key aggregate r s h =
      rw (emit_ok ports "release.updated" aggregate (release_data r) _ h) refl

  pub preflight_cases :
      (key : String) (r : Release) (s : Service S)
      → (enter_preflight ports key r s ≡ (ok tt, s))
        ⊎ ((r' : Release) × (enter_preflight ports key r s
              ≡ save_release ports key r'.id r' (record s { reads = suc s.reads })))
  unfolding enter_preflight pure lift clock_now ◌>>=◌
  preflight_cases key r s = elim (Bool-cases (r.status == ReleaseStatus.queued)) [
    | inl q ↦ inr (
      record r { status = ReleaseStatus.preflight; updated_at = ports.clock s.reads },
      rw (q, queued_to_preflight r (release_rank_injective _ _ q)) refl,
    )
    | inr q ↦ inl (rw q refl)
  ]

  enter_preflight_tasks :
      (key : String) (r : Release) (s : Service S) {u : Unit {0}}
      → (enter_preflight ports key r s).0 ≡ ok u
      → (enter_preflight ports key r s).1.state.tasks ≡ s.state.tasks
  enter_preflight_tasks key r s h = elim (preflight_cases key r s) [
    | inl e ↦ rw e refl
    | inr (r', e) ↦ rw e (save_release_tasks key r'.id r' _ (rw e at h))
  ]

  -- The steps of a claim after its lease.
  unfoldable pub commit_claim : Task → Release → Task → Cmd S Task
  commit_claim t r t' = do
    save_task ports t.id t'.id t'
    enter_preflight ports t.release_id r
    pure t'

  commit_claim_ok :
      (t : Task) (r : Release) (t' : Task) (s : Service S) {u : Task}
      → (commit_claim t r t' s).0 ≡ ok u
      → (t' ≡ u) × (lookup t'.id (commit_claim t r t' s).1.state.tasks ≡ some t')
  unfolding commit_claim pure
  commit_claim_ok t r t' s {u} h =
      let (_, saved, e₁) = bind_ok (save_task ports t.id t'.id t') _ s h in
      let s₁ : Service S = (save_task ports t.id t'.id t' s).1 in
      let h₁ : ((enter_preflight ports t.release_id r >>= λ _. pure t') s₁).0 ≡ ok u = rw e₁ at h in
      let (_, entered, e₂) = bind_ok (enter_preflight ports t.release_id r) _ s₁ h₁ in
      let whole : commit_claim t r t' s ≡ (ok t', (enter_preflight ports t.release_id r s₁).1) =
        e₁ ∙ e₂ in
      (
        task_of (rw whole at h),
        rw whole (
            rw (enter_preflight_tasks t.release_id r s₁ entered)
              (save_task_ok t.id t'.id t' s saved)),
      )

  -- The lease and the steps after it.
  unfoldable lease_claim : String → Duration → Task → Release → Cmd S Task
  unfolding commit_claim
  lease_claim agent ttl t r = do
    leased ← clock_now ports
    t' ← lift (Task.lease t agent leased ttl)
    commit_claim t r t'

  lease_claim_ok :
      (agent : String) (ttl : Duration) (t : Task) (r : Release) (s : Service S) {u : Task}
      → (lease_claim agent ttl t r s).0 ≡ ok u
      → (Task.lease t agent (ports.clock s.reads) ttl ≡ ok u)
        × (lookup u.id (lease_claim agent ttl t r s).1.state.tasks ≡ some u)
  unfolding lease_claim clock_now lift ◌>>=◌
  lease_claim_ok agent ttl t r s {u} h =
      let s₁ : Service S = record s { reads = suc s.reads } in
      let (t', e, rest) =
        continue_ok (Task.lease t agent (ports.clock s.reads) ttl, s₁) (commit_claim t r) h in
      let (same, stored) = commit_claim_ok t r t' s₁ (rw rest at h) in
      (
        e ∙ ap ok same,
        subst (λ v. lookup v.id (lease_claim agent ttl t r s).1.state.tasks ≡ some v) same
            (rw rest stored),
      )

  -- The steps of a claim after the choice of its task.
  unfoldable take_task : String → Duration → Task → Cmd S Task
  unfolding lease_claim commit_claim
  take_task agent ttl t = do
    r ← find_release t.release_id (message "task release is missing")
    decision ← gets (dispatch_decision t.release_id)
    guard decision.allowed no_task
    lease_claim agent ttl t r

  take_task_ok :
      (agent : String) (ttl : Duration) (t : Task) (s : Service S) {u : Task}
      → (take_task agent ttl t s).0 ≡ ok u
      → (Task.lease t agent (ports.clock s.reads) ttl ≡ ok u)
        × (lookup u.id (take_task agent ttl t s).1.state.tasks ≡ some u)
  unfolding take_task gets ◌>>=◌
  take_task_ok agent ttl t s {u} h =
      let (r, found, e₁) = bind_ok (find_release t.release_id _) _ s h in
      let (_, kept) = find_release_ok t.release_id _ s found in
      let tail : Cmd S Task =
        guard (dispatch_decision t.release_id s.state).allowed no_task >>= λ _.
        lease_claim agent ttl t r in
      let e₂ : take_task agent ttl t s ≡ tail s =
        e₁
        ∙ ap
            (gets (dispatch_decision t.release_id) >>= λ d.
              guard d.allowed no_task >> lease_claim agent ttl t r)
            kept in
      let (_, passed, e₃) =
        bind_ok (guard (dispatch_decision t.release_id s.state).allowed no_task) _ s (rw e₂ at h) in
      let whole : take_task agent ttl t s ≡ lease_claim agent ttl t r s =
        e₂ ∙ e₃ ∙ ap (lease_claim agent ttl t r) (guard_ok _ no_task s passed).1 in
      rw whole (lease_claim_ok agent ttl t r s (rw whole at h))

  -- The part of a claim that holds the lock.
  pub claim_locked_ok :
      (device agent : String) (ttl : Duration) (s : Service S) {u : Task}
      → WellFormed s.state
      → (claim_locked ports device agent ttl s).0 ≡ ok u
      → (t : Task) × (lookup t.id s.state.tasks ≡ some t)
        × (is_eligible device (ports.clock s.reads) s.state t ≡ true)
        × (Task.lease t agent (ports.clock (suc s.reads)) ttl ≡ ok u)
        × (lookup u.id (claim_locked ports device agent ttl s).1.state.tasks ≡ some u)
  unfolding claim_locked take_task lease_claim commit_claim clock_now gets ◌>>=◌
  claim_locked_ok device agent ttl s {u} w h =
      let s₁ : Service S = record s { reads = suc s.reads } in
      let items = eligible_tasks device (ports.clock s.reads) s.state in
      let (t, chosen, e) =
        continue_ok (or_raise (head? items) no_task s₁) (take_task agent ttl) h in
      let (is_head, kept) = or_raise_ok (head? items) no_task s₁ chosen in
      let whole : claim_locked ports device agent ttl s ≡ take_task agent ttl t s₁ =
        e ∙ ap (take_task agent ttl t) kept in
      let (stands, eligible) = eligible_stands device (ports.clock s.reads) s.state t w is_head in
      let (leased, stored) = take_task_ok agent ttl t s₁ (rw whole at h) in
      (t, stands, eligible, leased, rw whole stored)
