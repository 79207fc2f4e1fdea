-- ===== src/Service/Preserved/Tasks.antt =====
-- The agents' commands keep every invariant that satisfies the laws.
use go_prod22_go_project.Prelude.{ℤ, String, Bool, true, false, ◌≡◌, refl, ◌∙◌, arith}
use go_prod22_go_project.Domain.Status.{TaskStatus}
use go_prod22_go_project.Domain.Model.{Task, Time, Duration, second}
use go_prod22_go_project.Domain.Errors.{ok}
use go_prod22_go_project.Domain.Task.{schedule_retry}
use go_prod22_go_project.Service.Base.{Ports, Service}
use go_prod22_go_project.Service.Tasks.{
  act, update_task, start_task, reject_task, report_progress, noted, progressed, report_preflight,
  confirm_waiting, confirm_install, retry_task, renew_lease, failed_task, fail_held, fail_task,
}
use go_prod22_go_project.Service.Keeps.{
  Keeps, Keeps-bind, Keeps-lift_bind, Keeps-guard, Keeps-if, Keeps-pure, Keeps-ignore,
}
use go_prod22_go_project.Service.Keeps.Laws.{Laws}
use go_prod22_go_project.Service.Preserved.Rules.{
  clock_now-Keeps, lift-Keeps, find_task_bind-Keeps, find_release_bind-Keeps,
  deref_release_bind-Keeps, task_step_bind-Keeps, save_task-Keeps, reconcile-Keeps,
}

schedule_retry-id :
    (t : Task) (now : Time) (base : Duration) (limit : ℤ) (reason : String)
    → (schedule_retry t now base limit reason).0.id ≡ t.id
unfolding schedule_retry
schedule_retry-id t now base limit reason = ground arith

failed_task-id :
    (t : Task) (retryable : Bool) (now : Time) (limit : ℤ) (reason : String)
    → (failed_task t retryable now limit reason).0.id ≡ t.id
unfolding failed_task
failed_task-id t true now limit reason = schedule_retry-id t now second limit reason
failed_task-id t false now limit reason = refl

progressed-id :
    (percent : ℤ) (detail : String) (t : Task) → (progressed percent (noted detail t)).id ≡ t.id
progressed-id percent detail t = ground arith

act-id :
    (t u : Task) (action reason : String) (now : Time)
    → act t action reason now ≡ ok u
    → u.id ≡ t.id
unfolding act
act-id t u action reason now h = ground arith

module _ {S : Type 0} {ports : Ports S} {P B : Service S → Type 0} (laws : Laws ports P B) where
  pub start_task-Keeps : (id agent : String) → Keeps P B (start_task ports id agent)
  unfolding start_task
  start_task-Keeps id agent = find_task_bind-Keeps laws id _ _ λ t k.
      Keeps-bind _ _ (clock_now-Keeps laws) λ now. Keeps-bind _ _ (lift-Keeps laws _) λ _.
        task_step_bind-Keeps laws t TaskStatus.installing _ λ u e.
          Keeps-bind _ _ (clock_now-Keeps laws) λ updated. save_task-Keeps laws id id _ (e ∙ k)

  pub reject_task-Keeps : (id agent reason : String) → Keeps P B (reject_task ports id agent reason)
  unfolding reject_task
  reject_task-Keeps id agent reason = find_task_bind-Keeps laws id _ _ λ t k.
      Keeps-bind _ _ (clock_now-Keeps laws) λ now. Keeps-bind _ _ (lift-Keeps laws _) λ _.
        find_release_bind-Keeps laws t.release_id _ _ λ r _.
          Keeps-bind _ _ (clock_now-Keeps laws) λ later.
            laws.commit_task_law id id _ _ (schedule_retry-id t later second r.retry_limit _ ∙ k)

  pub report_progress-Keeps :
      (id agent : String) (percent : ℤ) (detail : String)
      → Keeps P B (report_progress ports id agent percent detail)
  unfolding report_progress
  report_progress-Keeps id agent percent detail = Keeps-bind _ _ (Keeps-guard _ _) λ _.
      find_task_bind-Keeps laws id _ _ λ t k. Keeps-bind _ _ (clock_now-Keeps laws) λ now.
        Keeps-bind _ _ (lift-Keeps laws _) λ _. Keeps-bind _ _ (Keeps-guard _ _) λ _.
          Keeps-bind _ _ (clock_now-Keeps laws)
            λ updated. save_task-Keeps laws id id _ (progressed-id percent detail t ∙ k)

  pub report_preflight-Keeps :
      (id : String) (passed : Bool) (detail : String)
      → Keeps P B (report_preflight ports id passed detail)
  unfolding report_preflight
  report_preflight-Keeps id passed detail = find_task_bind-Keeps laws id _ _ λ t k.
      Keeps-bind _ _ (Keeps-guard _ _) λ _. Keeps-bind _ _ (clock_now-Keeps laws) λ now.
        Keeps-bind _ _ (save_task-Keeps laws id _ _ (ground arith)) λ _. reconcile-Keeps laws _

  confirm_waiting-Keeps :
      (id agent : String) (t : Task) → t.id ≡ id → Keeps P B (confirm_waiting ports id agent t)
  unfolding confirm_waiting
  confirm_waiting-Keeps id agent t k = Keeps-bind _ _ (Keeps-guard _ _) λ _.
      Keeps-bind _ _ (clock_now-Keeps laws) λ now. Keeps-bind _ _ (Keeps-guard _ _) λ _.
        Keeps-bind _ _ (Keeps-guard _ _) λ _.
          Keeps-bind _ _ (clock_now-Keeps laws)
            λ updated. Keeps-bind _ _ (save_task-Keeps laws id _ _ k) λ _. reconcile-Keeps laws _

  pub confirm_install-Keeps : (id agent : String) → Keeps P B (confirm_install ports id agent)
  unfolding confirm_install
  confirm_install-Keeps id agent =
      find_task_bind-Keeps laws id _ _
        λ t k. Keeps-if _ _ _ (Keeps-pure tt) (confirm_waiting-Keeps id agent t k)

  pub retry_task-Keeps : (id : String) → Keeps P B (retry_task ports id)
  unfolding retry_task
  retry_task-Keeps id = find_task_bind-Keeps laws id _ _ λ t k.
      Keeps-bind _ _ (Keeps-guard _ _) λ _. deref_release_bind-Keeps laws t.release_id _ λ r _.
        Keeps-bind _ _ (Keeps-guard _ _) λ _.
          Keeps-bind _ _ (clock_now-Keeps laws)
            λ next. Keeps-bind _ _ (clock_now-Keeps laws) λ updated. save_task-Keeps laws id id _ k

  pub renew_lease-Keeps :
      (id agent : String) (ttl : Duration) → Keeps P B (renew_lease ports id agent ttl)
  unfolding renew_lease
  renew_lease-Keeps id agent ttl = Keeps-bind _ _ (Keeps-guard _ _) λ _.
      find_task_bind-Keeps laws id _ _ λ t k. Keeps-bind _ _ (clock_now-Keeps laws) λ now.
        Keeps-bind _ _ (lift-Keeps laws _) λ _.
          Keeps-bind _ _ (Keeps-guard _ _)
            λ _. Keeps-bind _ _ (save_task-Keeps laws id _ _ k) λ _. Keeps-pure _

  fail_held-Keeps :
      (id agent reason : String) (retryable : Bool) (t : Task)
      → t.id ≡ id
      → Keeps P B (fail_held ports id agent reason retryable t)
  unfolding fail_held
  fail_held-Keeps id agent reason retryable t k = Keeps-bind _ _ (clock_now-Keeps laws) λ now.
      Keeps-bind _ _ (lift-Keeps laws _) λ _. find_release_bind-Keeps laws t.release_id _ _ λ r _.
        Keeps-bind _ _ (clock_now-Keeps laws) λ later.
          Keeps-bind _ _
            (laws.commit_task_law id _ _ _
              (failed_task-id t retryable later r.retry_limit reason ∙ k))
            λ _. Keeps-bind _ _ (reconcile-Keeps laws _) λ _. Keeps-pure _

  pub fail_task-Keeps :
      (id agent reason : String) (retryable : Bool)
      → Keeps P B (fail_task ports id agent reason retryable)
  unfolding fail_task
  fail_task-Keeps id agent reason retryable =
      find_task_bind-Keeps laws id _ _
        λ t k. Keeps-if _ _ _ (Keeps-pure t) (fail_held-Keeps id agent reason retryable t k)

  pub update_task-Keeps :
      (id action reason : String) → Keeps P B (update_task ports id action reason)
  unfolding update_task
  update_task-Keeps id action reason = find_task_bind-Keeps laws id _ _ λ t k.
      Keeps-bind _ _ (clock_now-Keeps laws) λ now. Keeps-lift_bind _ _ laws.broken λ u e.
        Keeps-bind _ _
          (Keeps-ignore _ (save_task-Keeps laws id _ _ (act-id t u action reason now e ∙ k)))
          λ _. Keeps-bind _ _ (reconcile-Keeps laws _) λ _. Keeps-pure _
