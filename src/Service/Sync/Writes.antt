-- ===== src/Service/Sync/Writes.antt =====
-- An event that carries a record makes an earlier write through its pointer invisible.
use go_prod22_go_project.Prelude.{String, Bool, false, ◌≡◌, ap, ◌==◌, string_eq}
use go_prod22_go_project.Prelude.Map.{replace}
use go_prod22_go_project.Domain.Model.{Release, Device, Task, Time}
use go_prod22_go_project.Events.{Event, Payload, release_data, device_data, task_data}
use go_prod22_go_project.Store.{State}
use go_prod22_go_project.Service.Core.{apply, project, record_audit}
use go_prod22_go_project.Service.Sync.View.{SameView, insert-lookup, insert-replace-lookup}

abbrev pub event : String → String → String → Payload → Time → Event
event id type aggregate payload at = record {
  id = id;
  type = type;
  aggregate = aggregate;
  payload = payload;
  at = at;
}

module _ (dirty : String → Bool) (id aggregate : String) (at : Time) (a b : State)
    (same : SameView dirty a b) where
  pub task_updated-SameView :
      (t : Task)
      → let e = event id "task.updated" aggregate (task_data t) at in
        SameView dirty (apply e a) (apply e (record b { tasks = replace t.id t b.tasks }))
  unfolding apply project
  task_updated-SameView t = record {
    tasks = λ k. insert-replace-lookup t.id t t a.tasks b.tasks k (λ _. same.tasks k);
    devices = same.devices;
    releases = same.releases;
    audit = ap (record_audit _) same.audit;
  }

  pub device_updated-SameView :
      (d : Device)
      → let e = event id "device.registered" aggregate (device_data d) at in
        SameView dirty (apply e a) (apply e (record b { devices = replace d.id d b.devices }))
  unfolding apply project
  device_updated-SameView d = record {
    tasks = same.tasks;
    devices = λ k. insert-replace-lookup d.id d d a.devices b.devices k (λ _. same.devices k);
    releases = same.releases;
    audit = ap (record_audit _) same.audit;
  }

  -- A saved release is clean again.
  pub release_updated-SameView :
      (clean : String → Bool) (r : Release)
      → ((k : String) → clean k ≡ false → (r.id == k) ≡ false → dirty k ≡ false)
      → let e = event id "release.updated" aggregate (release_data r) at in
        SameView clean (apply e a) (apply e (record b { releases = replace r.id r b.releases }))
  unfolding apply project
  release_updated-SameView clean r wash = record {
    tasks = same.tasks;
    devices = same.devices;
    releases = λ k c.
        insert-replace-lookup r.id r r a.releases b.releases k (λ n. same.releases k (wash k c n));
    audit = ap (record_audit _) same.audit;
  }

  pub release_cleaned-SameView :
      (clean : String → Bool) (r : Release)
      → ((k : String) → clean k ≡ false → (r.id == k) ≡ false → dirty k ≡ false)
      → let e = event id "release.updated" aggregate (release_data r) at in
        SameView clean (apply e a) (apply e b)
  unfolding apply project
  release_cleaned-SameView clean r wash = record {
    tasks = same.tasks;
    devices = same.devices;
    releases =
        λ k c. insert-lookup r.id r a.releases b.releases k (λ n. same.releases k (wash k c n));
    audit = ap (record_audit _) same.audit;
  }
