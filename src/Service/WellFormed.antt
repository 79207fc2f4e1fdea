-- ===== src/Service/WellFormed.antt =====
-- The service's maps are well formed: each record under its own id, no id twice.
pub mod Runs
use go_prod22_go_project.Prelude.{String, List, [], ◌∷◌, ◌≡◌, refl, arith}
use go_prod22_go_project.Prelude.Map.{replace}
use go_prod22_go_project.Prelude.Map.Keys.{
  Keyed, Unique, insert-Keyed, insert-Unique, replace-Keyed, replace-Unique,
}
use go_prod22_go_project.Domain.Model.{Release, Device, Task}
use go_prod22_go_project.Events.{Event, Payload, release_data, device_data, task_data}
use go_prod22_go_project.Store.{State, empty_state}
use go_prod22_go_project.Service.Base.{Ports, Service, write_release, snapshot}
use go_prod22_go_project.Service.Core.{
  apply, apply_all, record_audit, put_release, put_device, put_task, restored, project_cases,
}
use go_prod22_go_project.Service.Keeps.{Keeps}
use go_prod22_go_project.Service.Keeps.Laws.{Laws}
use go_prod22_go_project.Service.Keeps.States.{Steady, Steady-Laws, modify-Keeps}

pub record WellFormed (st : State) : Type 0 where
  pub tasks_keyed : Keyed (λ t. t.id) st.tasks
  pub releases_keyed : Keyed (λ r. r.id) st.releases
  pub devices_keyed : Keyed (λ d. d.id) st.devices
  pub tasks_unique : Unique st.tasks
  pub releases_unique : Unique st.releases
  pub devices_unique : Unique st.devices

put_task-WellFormed : (v : Payload) (st : State) → WellFormed st → WellFormed (put_task v st)
put_task-WellFormed (task_data t) st w = record {
  tasks_keyed = insert-Keyed _ t.id t st.tasks refl w.tasks_keyed;
  releases_keyed = w.releases_keyed;
  devices_keyed = w.devices_keyed;
  tasks_unique = insert-Unique t.id t st.tasks w.tasks_unique;
  releases_unique = w.releases_unique;
  devices_unique = w.devices_unique;
}
put_task-WellFormed _ st w = w

put_release-WellFormed : (v : Payload) (st : State) → WellFormed st → WellFormed (put_release v st)
put_release-WellFormed (release_data r) st w = record {
  tasks_keyed = w.tasks_keyed;
  releases_keyed = insert-Keyed _ r.id r st.releases refl w.releases_keyed;
  devices_keyed = w.devices_keyed;
  tasks_unique = w.tasks_unique;
  releases_unique = insert-Unique r.id r st.releases w.releases_unique;
  devices_unique = w.devices_unique;
}
put_release-WellFormed _ st w = w

put_device-WellFormed : (v : Payload) (st : State) → WellFormed st → WellFormed (put_device v st)
put_device-WellFormed (device_data d) st w = record {
  tasks_keyed = w.tasks_keyed;
  releases_keyed = w.releases_keyed;
  devices_keyed = insert-Keyed _ d.id d st.devices refl w.devices_keyed;
  tasks_unique = w.tasks_unique;
  releases_unique = w.releases_unique;
  devices_unique = insert-Unique d.id d st.devices w.devices_unique;
}
put_device-WellFormed _ st w = w

pub write_task-WellFormed :
    (key : String) (t : Task) (st : State)
    → t.id ≡ key
    → WellFormed st
    → WellFormed (record st { tasks = replace key t st.tasks })
write_task-WellFormed key t st e w = record {
  tasks_keyed = replace-Keyed _ key t st.tasks e w.tasks_keyed;
  releases_keyed = w.releases_keyed;
  devices_keyed = w.devices_keyed;
  tasks_unique = replace-Unique key t st.tasks w.tasks_unique;
  releases_unique = w.releases_unique;
  devices_unique = w.devices_unique;
}

pub write_release-WellFormed :
    (key : String) (r : Release) (st : State)
    → r.id ≡ key
    → WellFormed st
    → WellFormed (record st { releases = replace key r st.releases })
write_release-WellFormed key r st e w = record {
  tasks_keyed = w.tasks_keyed;
  releases_keyed = replace-Keyed _ key r st.releases e w.releases_keyed;
  devices_keyed = w.devices_keyed;
  tasks_unique = w.tasks_unique;
  releases_unique = replace-Unique key r st.releases w.releases_unique;
  devices_unique = w.devices_unique;
}

pub write_device-WellFormed :
    (key : String) (d : Device) (st : State)
    → d.id ≡ key
    → WellFormed st
    → WellFormed (record st { devices = replace key d st.devices })
write_device-WellFormed key d st e w = record {
  tasks_keyed = w.tasks_keyed;
  releases_keyed = w.releases_keyed;
  devices_keyed = replace-Keyed _ key d st.devices e w.devices_keyed;
  tasks_unique = w.tasks_unique;
  releases_unique = w.releases_unique;
  devices_unique = replace-Unique key d st.devices w.devices_unique;
}

audit-WellFormed :
    (audit : List Event) (st : State) → WellFormed st → WellFormed (record st { audit = audit })
audit-WellFormed audit st w = record {
  tasks_keyed = w.tasks_keyed;
  releases_keyed = w.releases_keyed;
  devices_keyed = w.devices_keyed;
  tasks_unique = w.tasks_unique;
  releases_unique = w.releases_unique;
  devices_unique = w.devices_unique;
}

pub apply-WellFormed : (e : Event) (st : State) → WellFormed st → WellFormed (apply e st)
unfolding apply
apply-WellFormed e st w =
    let v = audit-WellFormed (record_audit e st.audit) st w in
    project_cases WellFormed e _ (put_release-WellFormed e.payload _ v)
      (put_device-WellFormed e.payload _ v) (put_task-WellFormed e.payload _ v) v

pub apply_all-WellFormed :
    (es : List Event) (st : State) → WellFormed st → WellFormed (apply_all es st)
unfolding apply_all
apply_all-WellFormed [] st w = w
apply_all-WellFormed (e ∷ es) st w = apply_all-WellFormed es (apply e st) (apply-WellFormed e st w)

-- A restart from any well-formed snapshot and any log gives a well-formed state.
pub restored-WellFormed :
    (st : State) (es : List Event) → WellFormed st → WellFormed (restored st es)
restored-WellFormed st [] w = w
restored-WellFormed st (e ∷ es) w = apply_all-WellFormed (e ∷ es) _ (audit-WellFormed [] st w)

pub empty-WellFormed : WellFormed empty_state
empty-WellFormed = omega arith

abbrev pub IsWellFormed : {S : Type 0} → Service S → Type 0
IsWellFormed s = WellFormed s.state

pub WellFormed-Steady : Steady WellFormed
WellFormed-Steady = record {
  keyed_tasks = λ st w. w.tasks_keyed;
  keyed_releases = λ st w. w.releases_keyed;
  keyed_devices = λ st w. w.devices_keyed;
  applied = apply-WellFormed;
  task_written = write_task-WellFormed;
  release_written = write_release-WellFormed;
  device_written = write_device-WellFormed;
}

module _ {S : Type 0} (ports : Ports S) where
  pub IsWellFormed-laws : Laws ports IsWellFormed IsWellFormed
  IsWellFormed-laws = Steady-Laws ports WellFormed-Steady

  pub write_release-Keeps :
      (key : String) (r : Release)
      → r.id ≡ key
      → Keeps {S = S} IsWellFormed IsWellFormed (write_release key r)
  unfolding write_release
  write_release-Keeps key r e =
      modify-Keeps ports WellFormed-Steady _ (λ st. write_release-WellFormed key r st e)
