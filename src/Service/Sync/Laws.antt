-- ===== src/Service/Sync/Laws.antt =====
-- The laws of `Service.Keeps.Laws` for a log that replays to the state.
use go_prod22_go_project.Prelude.{
  String, Option, none, some, Bool, false, ◌≡◌, ◌≢◌, refl, ◌==◌, string_eq, inl, inr,
}
use go_prod22_go_project.Domain.Model.{Release, Device, Task}
use go_prod22_go_project.Domain.Errors.{Result, ok, err, panic}
use go_prod22_go_project.Events.{Payload}
use go_prod22_go_project.Service.Base.{
  Ports, Service, modify, write_task, write_release, write_device, or_crash, ◌>>=◌,
}
use go_prod22_go_project.Service.Core.{apply, emit, commit_task, save_release, save_device}
use go_prod22_go_project.Service.Keeps.{Keeps, Ends}
use go_prod22_go_project.Service.Keeps.Laws.{Laws}
use go_prod22_go_project.Service.WellFormed.{
  WellFormed, apply-WellFormed, write_task-WellFormed, write_release-WellFormed,
  write_device-WellFormed,
}
use go_prod22_go_project.Service.Sync.View.{SameView, apply-SameView}
use go_prod22_go_project.Service.Sync.Writes.{
  task_updated-SameView, device_updated-SameView, release_updated-SameView,
  release_cleaned-SameView,
}
use go_prod22_go_project.Service.Sync.Replay.{overlaid, overlaid-SameView}
use go_prod22_go_project.Service.Sync.Journal.{
  Journal, apply_all-append, replayed, stamped, emit_lem,
}

-- The service is well formed, its log replays to its state, and so does the log over the snapshot;
-- all this but for marked releases.
pub record InSync {S : Type 0} {ports : Ports S} (journal : Journal ports) (dirty : String → Bool)
    (s : Service S) : Type 0 where
  pub good : journal.Good s.st
  pub well : WellFormed s.state
  pub same : SameView dirty (replayed (journal.log s.st)) s.state
  pub recovers :
      SameView dirty (overlaid (journal.log s.st) (journal.snap s.st)) (replayed (journal.log s.st))

-- Nothing is claimed of a service in which a method panicked.
abbrev pub Anything : {S : Type 0} → Service S → Type 0
Anything s = Unit {0}

-- Where the command did not panic, its ending is a claim about the service that it leaves.
pub Ends-Anything :
    {S A : Type 0} (P : Service S → Type 0) (x : Result A × Service S)
    → x.0 ≢ panic
    → Ends P Anything x
    → P x.1
Ends-Anything P (ok a, s) n h = h
Ends-Anything P (err e, s) n h = h
Ends-Anything P (panic, s) n h = absurd (n refl)

Ends-returned :
    {S A : Type 0} (P : Service S → Type 0) (x : Result A × Service S) → P x.1 → Ends P Anything x
Ends-returned P (ok a, s) h = h
Ends-returned P (err e, s) h = h
Ends-returned P (panic, s) h = tt

module _ {S : Type 0} (ports : Ports S) (journal : Journal ports) where
  emit-InSync :
      (clean : String → Bool) (type aggregate : String) (v : Payload) (s : Service S)
      → type ≢ ""
      → journal.Good s.st
      → WellFormed s.state
      → let e = stamped ports type aggregate v s in
        SameView clean (apply e (replayed (journal.log s.st))) (apply e s.state)
        → SameView clean
            (apply e (overlaid (journal.log s.st) (journal.snap s.st)))
            (apply e (replayed (journal.log s.st)))
        → Ends (InSync journal clean) Anything (emit ports type aggregate v s)
  emit-InSync clean type aggregate v s named g w same over =
      let (kept, logged, taken, returned, good) =
        emit_lem ports journal type aggregate v s named g in
      Ends-returned (InSync journal clean) (emit ports type aggregate v s) (record {
        good = good;
        well = rw kept (apply-WellFormed _ s.state w);
        same = rw (kept, logged, apply_all-append (journal.log s.st)) same;
        recovers = elim taken [
          | inl new ↦
              rw (logged, new)
                (overlaid-SameView clean _ (apply (stamped ports type aggregate v s) s.state)
                  (rw (apply_all-append (journal.log s.st)) same))
          | inr old ↦
              rw
                (
                  logged,
                  old,
                  apply_all-append (journal.log s.st),
                  apply_all-append (journal.log s.st),
                )
                over
        ];
      })

  commit_task-InSync :
      (dirty : String → Bool) (aggregate : String) (t : Task) (r : Option Bool) (s : Service S)
      → InSync journal dirty s
      → Ends (InSync journal dirty) Anything (commit_task ports t.id aggregate (t, r) s)
  unfolding commit_task write_task modify or_crash ◌>>=◌
  commit_task-InSync dirty aggregate t none s h = tt
  commit_task-InSync dirty aggregate t (some b) s h =
      emit-InSync dirty _ _ _ _ (λ e. cc) h.good (write_task-WellFormed t.id t s.state refl h.well)
        (task_updated-SameView dirty _ _ _ _ _ h.same t) (apply-SameView dirty _ _ _ h.recovers)

  -- A saved release is in sync again.
  pub save_release-InSync :
      (dirty clean : String → Bool) (aggregate : String) (r : Release) (s : Service S)
      → ((k : String) → clean k ≡ false → (r.id == k) ≡ false → dirty k ≡ false)
      → InSync journal dirty s
      → Ends (InSync journal clean) Anything (save_release ports r.id aggregate r s)
  unfolding save_release write_release modify ◌>>=◌
  save_release-InSync dirty clean aggregate r s wash h =
      emit-InSync clean _ _ _ _ (λ e. cc) h.good
        (write_release-WellFormed r.id r s.state refl h.well)
        (release_updated-SameView dirty _ _ _ _ _ h.same clean r wash)
        (release_cleaned-SameView dirty _ _ _ _ _ h.recovers clean r wash)

  save_device-InSync :
      (dirty : String → Bool) (aggregate : String) (d : Device) (s : Service S)
      → InSync journal dirty s
      → Ends (InSync journal dirty) Anything (save_device ports d.id aggregate d s)
  unfolding save_device write_device modify ◌>>=◌
  save_device-InSync dirty aggregate d s h =
      emit-InSync dirty _ _ _ _ (λ e. cc) h.good
        (write_device-WellFormed d.id d s.state refl h.well)
        (device_updated-SameView dirty _ _ _ _ _ h.same d) (apply-SameView dirty _ _ _ h.recovers)

  new-InSync :
      (dirty : String → Bool) (type aggregate : String) (v : Payload)
      → type ≢ ""
      → Keeps (InSync journal dirty) Anything (emit ports type aggregate v)
  new-InSync dirty type aggregate v named = record {
    at = λ s h.
        emit-InSync dirty _ _ _ s named h.good h.well (apply-SameView dirty _ _ _ h.same)
          (apply-SameView dirty _ _ _ h.recovers);
  }

  pub InSync-laws : (dirty : String → Bool) → Laws ports (InSync journal dirty) Anything
  InSync-laws dirty = record {
    tick = λ s h. record { good = h.good; well = h.well; same = h.same; recovers = h.recovers };
    issue = λ s h. record { good = h.good; well = h.well; same = h.same; recovers = h.recovers };
    broken = λ s h. tt;
    keyed_tasks = λ s h. h.well.tasks_keyed;
    keyed_releases = λ s h. h.well.releases_keyed;
    keyed_devices = λ s h. h.well.devices_keyed;
    commit_task_law = λ key aggregate t r e.
        rw (← e) (record { at = λ s h. commit_task-InSync dirty aggregate t r s h });
    save_release_law = λ key aggregate r e.
        rw (← e)
          (record { at = λ s h. save_release-InSync dirty dirty aggregate r s (λ k c n. c) h });
    save_device_law = λ key aggregate d e.
        rw (← e) (record { at = λ s h. save_device-InSync dirty aggregate d s h });
    new_release_law = λ aggregate r. new-InSync dirty _ _ _ (λ e. cc);
    new_device_law = λ aggregate d. new-InSync dirty _ _ _ (λ e. cc);
    new_task_law = λ aggregate t. new-InSync dirty _ _ _ (λ e. cc);
  }
