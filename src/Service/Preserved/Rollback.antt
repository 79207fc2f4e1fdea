-- ===== src/Service/Preserved/Rollback.antt =====
-- Rollbacks and expired leases keep every invariant that satisfies the laws. `QueueRollback` writes
-- to the release before it saves the tasks, so it asks for one more law.
use go_prod22_go_project.Prelude.{String, Option, none, some, List, [], ◌∷◌, ◌≡◌, refl, ◌∙◌, arith}
use go_prod22_go_project.Prelude.Map.{Map}
use go_prod22_go_project.Domain.Status.{TaskStatus, ReleaseStatus}
use go_prod22_go_project.Domain.Model.{Release, Task, Time}
use go_prod22_go_project.Domain.Errors.{ok}
use go_prod22_go_project.Domain.Release
use go_prod22_go_project.Service.Base.{Ports, Service, Cmd, gets, write_release, ◌>>=◌}
use go_prod22_go_project.Service.Rollback.{
  begin_rollback, ReapResult, reaped, queue_task, queue_tasks, queue_rollback, claim_rollback,
  finish_rollback, roll_back, complete_rollback, reap_one, reap_tasks, reconcile_all,
  reap_expired_detailed, reap_expired,
}
use go_prod22_go_project.Service.Keeps.{
  Keeps, Keeps-bind, Keeps-lift_bind, Keeps-if, Keeps-pure, Keeps-gets, Keeps-or_raise,
  Keeps-ignore,
}
use go_prod22_go_project.Service.Keeps.Laws.{Laws}
use go_prod22_go_project.Prelude.Map.Keys.{Keyed}
use go_prod22_go_project.Service.Preserved.Rules.{
  clock_now-Keeps, lift-Keeps, find_task_bind-Keeps, find_release_bind-Keeps,
  deref_release_bind-Keeps, get_release-Keeps, task_step_bind-Keeps, release_step_bind-Keeps,
  save_task-Keeps, reconcile-Keeps,
}

reaped-id : (now : Time) (r : Release) (t : Task) → (reaped now r t).id ≡ t.id
unfolding reaped
reaped-id now r t = ground arith

begin_rollback-id : (r u : Release) → begin_rollback r ≡ ok u → u.id ≡ r.id
unfolding begin_rollback Release.transition
begin_rollback-id r u h = ground arith

module _ {S : Type 0} {ports : Ports S} {P B : Service S → Type 0} (laws : Laws ports P B) where
  pub claim_rollback-Keeps : (device agent : String) → Keeps P B (claim_rollback ports device agent)
  unfolding claim_rollback
  claim_rollback-Keeps device agent = Keeps-bind _ _ (clock_now-Keeps laws) λ now.
      Keeps-bind _ _ (Keeps-gets _) λ candidates.
        Keeps-bind _ _ (Keeps-or_raise _ _)
          λ t. Keeps-bind _ _ (save_task-Keeps laws t.id _ _ refl) λ _. Keeps-pure _

  finish_rollback-Keeps : (release : String) → Keeps P B (finish_rollback ports release)
  unfolding finish_rollback
  finish_rollback-Keeps release = Keeps-bind _ _ (Keeps-gets _) λ tasks.
      Keeps-if _ _ _ (Keeps-pure tt) (
        deref_release_bind-Keeps laws release _ λ r k.
          release_step_bind-Keeps laws r ReleaseStatus.rolled_back _ λ u e.
            Keeps-bind _ _ (clock_now-Keeps laws) λ now. laws.save_release_law release _ _ (e ∙ k))

  roll_back-Keeps :
      (id agent : String) (t : Task) → t.id ≡ id → Keeps P B (roll_back ports id agent t)
  unfolding roll_back
  roll_back-Keeps id agent t k = Keeps-bind _ _ (clock_now-Keeps laws) λ now.
      Keeps-bind _ _ (lift-Keeps laws _) λ _.
        task_step_bind-Keeps laws t TaskStatus.rolled_back _ λ u e.
          Keeps-bind _ _ (clock_now-Keeps laws) λ updated.
            Keeps-bind _ _ (save_task-Keeps laws id _ _ (e ∙ k)) λ _. finish_rollback-Keeps _

  pub complete_rollback-Keeps : (id agent : String) → Keeps P B (complete_rollback ports id agent)
  unfolding complete_rollback
  complete_rollback-Keeps id agent =
      find_task_bind-Keeps laws id _ _
        λ t k. Keeps-if _ _ _ (Keeps-pure tt) (roll_back-Keeps id agent t k)

  reap_one-Keeps :
      (now : Time) (key : String) (t : Task) (o : Option Release) (out : ReapResult)
      → t.id ≡ key
      → Keeps P B (reap_one ports now key t o out)
  unfolding reap_one
  reap_one-Keeps now key t none out k = Keeps-pure out
  reap_one-Keeps now key t (some r) out k =
      Keeps-bind _ _ (Keeps-ignore _ (save_task-Keeps laws key _ _ (reaped-id now r t ∙ k)))
        λ _. Keeps-pure _

  reap_tasks-Keeps :
      (now : Time) (m : Map Task) (out : ReapResult)
      → Keyed (λ t. t.id) m
      → Keeps P B (reap_tasks ports now m out)
  unfolding reap_tasks
  reap_tasks-Keeps now [] out h = Keeps-pure out
  reap_tasks-Keeps now ((key, t) ∷ m) out h = Keeps-if _ _ _ (reap_tasks-Keeps now m out h.1) (
      Keeps-bind _ _ (get_release-Keeps laws _) λ owner.
        Keeps-bind _ _ (reap_one-Keeps now key t owner out h.0)
          λ out'. reap_tasks-Keeps now m out' h.1)

  reconcile_all-Keeps : (ids : List String) → Keeps P B (reconcile_all ports ids)
  unfolding reconcile_all
  reconcile_all-Keeps [] = Keeps-pure tt
  reconcile_all-Keeps (id ∷ ids) =
      Keeps-bind _ _ (reconcile-Keeps laws id) λ _. reconcile_all-Keeps ids

  -- The entries that a loop starts with are the state's, each under its id.
  entries_bind-Keeps :
      {A : Type 0} (f : Map Task → Cmd S A)
      → ((m : Map Task) → Keyed (λ t. t.id) m → Keeps P B (f m))
      → Keeps P B (gets (λ st. st.tasks) >>= f)
  unfolding gets ◌>>=◌
  entries_bind-Keeps f kf = record { at = λ s h. (kf s.state.tasks (laws.keyed_tasks s h)).at s h }

  pub reap_expired_detailed-Keeps : Keeps P B (reap_expired_detailed ports)
  unfolding reap_expired_detailed
  reap_expired_detailed-Keeps = Keeps-bind _ _ (clock_now-Keeps laws) λ now.
      entries_bind-Keeps _ λ entries h.
        Keeps-bind _ _ (reap_tasks-Keeps now entries _ h)
          λ out. Keeps-bind _ _ (reconcile_all-Keeps _) λ _. Keeps-pure _

  pub reap_expired-Keeps : Keeps P B (reap_expired ports)
  unfolding reap_expired
  reap_expired-Keeps = Keeps-bind _ _ reap_expired_detailed-Keeps λ _. Keeps-pure tt

  queue_tasks-Keeps :
      (release reason : String) (m : Map Task)
      → Keyed (λ t. t.id) m
      → Keeps P B (queue_tasks ports release reason m)
  unfolding queue_tasks queue_task
  queue_tasks-Keeps release reason [] h = Keeps-pure []
  queue_tasks-Keeps release reason ((key, t) ∷ m) h =
      let rest = queue_tasks-Keeps release reason m h.1 in
      Keeps-if _ _ _ rest (
        Keeps-bind _ _
          (task_step_bind-Keeps laws t TaskStatus.rollback_queued _ λ u e.
            Keeps-bind _ _ (clock_now-Keeps laws)
              λ now. Keeps-bind _ _ (save_task-Keeps laws key _ _ (e ∙ h.0)) λ _. Keeps-pure _)
          λ u. Keeps-bind _ _ rest λ us. Keeps-pure _)

  -- With a law for the bare write, `QueueRollback` keeps the invariant too.
  pub queue_rollback-Keeps :
      ((key : String) (r : Release) → r.id ≡ key → Keeps P B (write_release key r))
      → (release reason : String) → Keeps P B (queue_rollback ports release reason)
  unfolding queue_rollback
  queue_rollback-Keeps write release reason = find_release_bind-Keeps laws release _ _ λ r k.
      Keeps-lift_bind _ _ laws.broken λ u e.
        let same = begin_rollback-id r u e ∙ k in
        Keeps-bind _ _ (write release u same) λ _. entries_bind-Keeps _ λ entries h.
          Keeps-bind _ _ (queue_tasks-Keeps release reason entries h) λ queued.
            Keeps-bind _ _ (clock_now-Keeps laws)
              λ now. Keeps-bind _ _ (laws.save_release_law release _ _ same) λ _. Keeps-pure _
