-- ===== src/Service/Preserved/Rules.antt =====
-- The rules for the primitive commands, under an invariant's laws.
use go_prod22_go_project.Prelude.{
  String, Option, none, some, true, ◌≡◌, refl, arith, inl, inr, Option-cases,
}
use go_prod22_go_project.Prelude.Map.{lookup}
use go_prod22_go_project.Domain.Status.{TaskStatus, ReleaseStatus}
use go_prod22_go_project.Domain.Model.{Release, Device, Task}
use go_prod22_go_project.Domain.Errors.{Error, Result, ok, err, panic}
use go_prod22_go_project.Domain.Task
use go_prod22_go_project.Domain.Release
use go_prod22_go_project.Service.Base.{
  Ports, Service, Cmd, lift, gets, or_raise, or_crash, get_task, get_release, get_device, find_task,
  find_release, find_device, deref_release, clock_now, new_id, ◌>>=◌,
}
use go_prod22_go_project.Service.Core.{save_task, reconcile, reconcile_found}
use go_prod22_go_project.Service.Keeps.{Keeps, Keeps-lift_bind, Keeps-bind, keeps_rules}
use go_prod22_go_project.Service.Keeps.Laws.{Laws}
use go_prod22_go_project.Prelude.Map.Keys.{lookup-Keyed}

pub task-transition-id : (t u : Task) (to : TaskStatus) → Task.transition t to ≡ ok u → u.id ≡ t.id
unfolding Task.transition
task-transition-id t u to h = ground arith

pub release-transition-id :
    (r u : Release) (to : ReleaseStatus) → Release.transition r to ≡ ok u → u.id ≡ r.id
unfolding Release.transition
release-transition-id r u to h = ground arith

module _ {S : Type 0} {ports : Ports S} {P B : Service S → Type 0} (laws : Laws ports P B) where
  pub clock_now-Keeps : Keeps P B (clock_now ports)
  unfolding clock_now
  clock_now-Keeps = record { at = λ s h. laws.tick s h }

  pub new_id-Keeps : (prefix : String) → Keeps P B (new_id ports prefix)
  unfolding new_id
  new_id-Keeps prefix = record { at = λ s h. laws.issue s h }

  pub get_release-Keeps : (id : String) → Keeps P B (get_release id)
  unfolding get_release gets
  get_release-Keeps id = record { at = λ s h. h }

  pub deref_release-Keeps : (id : String) → Keeps P B (deref_release id)
  unfolding deref_release get_release gets or_crash ◌>>=◌
  deref_release-Keeps id = record {
    at = λ s h. elim (Option-cases (lookup id s.state.releases)) [
      | inl e ↦ rw (e, or_crash) (laws.broken s h)
      | inr (r, e) ↦ rw (e, or_crash) h
    ];
  }

  module _ {A : Type 0} where
    pub lift-Keeps : (r : Result A) → Keeps P B (lift r)
    unfolding lift
    lift-Keeps (ok a) = record { at = λ s h. h }
    lift-Keeps (err e) = record { at = λ s h. h }
    lift-Keeps panic = record { at = λ s h. laws.broken s h }

    -- A task that is found stands under its id.
    pub find_task_bind-Keeps :
        (id : String) (e : Error) (f : Task → Cmd S A)
        → ((t : Task) → t.id ≡ id → Keeps P B (f t))
        → Keeps P B (find_task id e >>= f)
    unfolding find_task get_task gets or_raise ◌>>=◌
    find_task_bind-Keeps id e f kf = record {
      at = λ s h. elim (Option-cases (lookup id s.state.tasks)) [
        | inl p ↦ rw (p, or_raise) h
        | inr (t, p) ↦
            rw (p, or_raise) ((kf t (lookup-Keyed _ id _ t (laws.keyed_tasks s h) p)).at s h)
      ];
    }

    pub find_release_bind-Keeps :
        (id : String) (e : Error) (f : Release → Cmd S A)
        → ((r : Release) → r.id ≡ id → Keeps P B (f r))
        → Keeps P B (find_release id e >>= f)
    unfolding find_release get_release gets or_raise ◌>>=◌
    find_release_bind-Keeps id e f kf = record {
      at = λ s h. elim (Option-cases (lookup id s.state.releases)) [
        | inl p ↦ rw (p, or_raise) h
        | inr (r, p) ↦
            rw (p, or_raise) ((kf r (lookup-Keyed _ id _ r (laws.keyed_releases s h) p)).at s h)
      ];
    }

    pub find_device_bind-Keeps :
        (id : String) (e : Error) (f : Device → Cmd S A)
        → ((d : Device) → d.id ≡ id → Keeps P B (f d))
        → Keeps P B (find_device id e >>= f)
    unfolding find_device get_device gets or_raise ◌>>=◌
    find_device_bind-Keeps id e f kf = record {
      at = λ s h. elim (Option-cases (lookup id s.state.devices)) [
        | inl p ↦ rw (p, or_raise) h
        | inr (d, p) ↦
            rw (p, or_raise) ((kf d (lookup-Keyed _ id _ d (laws.keyed_devices s h) p)).at s h)
      ];
    }

    pub deref_release_bind-Keeps :
        (id : String) (f : Release → Cmd S A)
        → ((r : Release) → r.id ≡ id → Keeps P B (f r))
        → Keeps P B (deref_release id >>= f)
    unfolding deref_release get_release gets or_crash ◌>>=◌
    deref_release_bind-Keeps id f kf = record {
      at = λ s h. elim (Option-cases (lookup id s.state.releases)) [
        | inl p ↦ rw (p, or_crash) (laws.broken s h)
        | inr (r, p) ↦
            rw (p, or_crash) ((kf r (lookup-Keyed _ id _ r (laws.keyed_releases s h) p)).at s h)
      ];
    }

    pub task_step_bind-Keeps :
        (t : Task) (to : TaskStatus) (f : Task → Cmd S A)
        → ((u : Task) → u.id ≡ t.id → Keeps P B (f u))
        → Keeps P B (lift (Task.transition t to) >>= f)
    task_step_bind-Keeps t to f kf =
        Keeps-lift_bind (Task.transition t to) f laws.broken
          (λ u e. kf u (task-transition-id t u to e))

    pub release_step_bind-Keeps :
        (r : Release) (to : ReleaseStatus) (f : Release → Cmd S A)
        → ((u : Release) → u.id ≡ r.id → Keeps P B (f u))
        → Keeps P B (lift (Release.transition r to) >>= f)
    release_step_bind-Keeps r to f kf =
        Keeps-lift_bind (Release.transition r to) f laws.broken
          (λ u e. kf u (release-transition-id r u to e))

  pub save_task-Keeps :
      (key aggregate : String) (t : Task) → t.id ≡ key → Keeps P B (save_task ports key aggregate t)
  unfolding save_task
  save_task-Keeps key aggregate t e = laws.commit_task_law key aggregate t (some true) e

  reconcile_found-Keeps :
      (id : String) (o : Option Release)
      → ((r : Release) → o ≡ some r → r.id ≡ id)
      → Keeps P B (reconcile_found ports id o)
  unfolding reconcile_found
  reconcile_found-Keeps id none k = search keeps_rules
  reconcile_found-Keeps id (some r) k = Keeps-bind _ _ (search keeps_rules) (λ tasks.
      Keeps-bind _ _ clock_now-Keeps
        (λ now. search (keeps_rules, laws.save_release_law id r.id _ (k r refl))))

  pub reconcile-Keeps : (id : String) → Keeps P B (reconcile ports id)
  unfolding reconcile get_release gets ◌>>=◌
  reconcile-Keeps id = record {
    at = λ s h.
        (reconcile_found-Keeps id (lookup id s.state.releases)
            (λ r e. lookup-Keyed _ id _ r (laws.keyed_releases s h) e)).at
          s h;
  }
