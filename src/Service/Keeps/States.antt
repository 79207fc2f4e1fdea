-- ===== src/Service/Keeps/States.antt =====
-- Invariants of the state alone, which every store leaves alone.
use go_prod22_go_project.Prelude.{String, Option, none, some, ◌≡◌, inl, inr, Option-cases}
use go_prod22_go_project.Prelude.Map.{replace}
use go_prod22_go_project.Prelude.Map.Keys.{Keyed}
use go_prod22_go_project.Domain.Model.{Release, Device, Task}
use go_prod22_go_project.Events.{Event, Payload}
use go_prod22_go_project.Store.{State}
use go_prod22_go_project.Service.Base.{
  Ports, Service, modify, write_task, write_release, write_device, or_crash, append, snapshot,
  new_id, clock_now,
}
use go_prod22_go_project.Service.Core.{apply, emit, commit_task, save_release, save_device}
use go_prod22_go_project.Service.Keeps.{Keeps, Keeps-bind}
use go_prod22_go_project.Service.Keeps.Laws.{Laws}

-- The application of an event and the writes through pointers keep the invariant.
pub record Steady (Q : State → Type 0) : Type 0 where
  pub keyed_tasks : (st : State) → Q st → Keyed (λ t. t.id) st.tasks
  pub keyed_releases : (st : State) → Q st → Keyed (λ r. r.id) st.releases
  pub keyed_devices : (st : State) → Q st → Keyed (λ d. d.id) st.devices
  pub applied : (e : Event) (st : State) → Q st → Q (apply e st)
  pub task_written :
      (key : String) (t : Task) (st : State)
      → t.id ≡ key
      → Q st
      → Q (record st { tasks = replace key t st.tasks })
  pub release_written :
      (key : String) (r : Release) (st : State)
      → r.id ≡ key
      → Q st
      → Q (record st { releases = replace key r st.releases })
  pub device_written :
      (key : String) (d : Device) (st : State)
      → d.id ≡ key
      → Q st
      → Q (record st { devices = replace key d st.devices })

abbrev pub OfState : {S : Type 0} → (State → Type 0) → Service S → Type 0
OfState Q s = Q s.state

module _ {S : Type 0} (ports : Ports S) {Q : State → Type 0} (steady : Steady Q) where
  append-Keeps : (e : Event) → Keeps {S = S} (OfState Q) (OfState Q) (append ports e)
  unfolding append
  append-Keeps e = record {
    at = λ s w. elim (Option-cases (ports.store.append e s.st).0) [
      | inl p ↦ rw p w
      | inr (x, p) ↦ rw p w
    ];
  }

  snapshot-Keeps : Keeps {S = S} (OfState Q) (OfState Q) (snapshot ports)
  unfolding snapshot
  snapshot-Keeps = record {
    at = λ s w. elim (Option-cases (ports.store.snapshot s.state s.st).0) [
      | inl p ↦ rw p w
      | inr (x, p) ↦ rw p w
    ];
  }

  pub modify-Keeps :
      (f : State → State)
      → ((st : State) → Q st → Q (f st))
      → Keeps {S = S} (OfState Q) (OfState Q) (modify f)
  unfolding modify
  modify-Keeps f k = record { at = λ s w. k s.state w }

  emit-Keeps :
      (type aggregate : String) (v : Payload)
      → Keeps {S = S} (OfState Q) (OfState Q) (emit ports type aggregate v)
  unfolding emit new_id clock_now
  emit-Keeps type aggregate v =
      Keeps-bind _ _ (record { at = λ s w. w })
        λ id.
          Keeps-bind _ _ (record { at = λ s w. w })
            λ at.
              Keeps-bind _ _ (append-Keeps _)
                λ _. Keeps-bind _ _ (modify-Keeps _ (steady.applied _)) λ _. snapshot-Keeps

  or_crash-Keeps : {A : Type 0} (o : Option A) → Keeps {S = S} (OfState Q) (OfState Q) (or_crash o)
  unfolding or_crash
  or_crash-Keeps none = record { at = λ s w. w }
  or_crash-Keeps (some a) = record { at = λ s w. w }

  pub Steady-Laws : Laws ports (OfState Q) (OfState Q)
  unfolding commit_task save_release save_device write_task write_release write_device
  Steady-Laws = record {
    tick = λ s w. w;
    issue = λ s w. w;
    broken = λ s w. w;
    keyed_tasks = λ s w. steady.keyed_tasks s.state w;
    keyed_releases = λ s w. steady.keyed_releases s.state w;
    keyed_devices = λ s w. steady.keyed_devices s.state w;
    commit_task_law = λ key aggregate t r e.
        Keeps-bind _ _ (modify-Keeps _ (λ st. steady.task_written key t st e))
          λ _. Keeps-bind _ _ (or_crash-Keeps r) λ _. emit-Keeps _ _ _;
    save_release_law = λ key aggregate r e.
        Keeps-bind _ _ (modify-Keeps _ (λ st. steady.release_written key r st e))
          λ _. emit-Keeps _ _ _;
    save_device_law = λ key aggregate d e.
        Keeps-bind _ _ (modify-Keeps _ (λ st. steady.device_written key d st e))
          λ _. emit-Keeps _ _ _;
    new_release_law = λ aggregate r. emit-Keeps _ _ _;
    new_device_law = λ aggregate d. emit-Keeps _ _ _;
    new_task_law = λ aggregate t. emit-Keeps _ _ _;
  }
