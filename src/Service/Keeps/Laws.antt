-- ===== src/Service/Keeps/Laws.antt =====
-- What an invariant of the service has to satisfy. The commands are then proved to keep it once, in
-- `Service.Preserved`, for every such invariant.
use go_prod22_go_project.Prelude.{String, suc, Option, Bool, ◌≡◌}
use go_prod22_go_project.Prelude.Map.Keys.{Keyed}
use go_prod22_go_project.Domain.Model.{Release, Device, Task}
use go_prod22_go_project.Events.{release_data, device_data, task_data}
use go_prod22_go_project.Service.Base.{Ports, Service}
use go_prod22_go_project.Service.Core.{emit, commit_task, save_release, save_device}
use go_prod22_go_project.Service.Keeps.{Keeps}

module _ {S : Type 0} (ports : Ports S) where
  pub record Laws (P B : Service S → Type 0) : Type 0 where
    pub tick : (s : Service S) → P s → P (record s { reads = suc s.reads })
    pub issue : (s : Service S) → P s → P (record s { issued = suc s.issued })
    pub broken : (s : Service S) → P s → B s
    pub keyed_tasks : (s : Service S) → P s → Keyed (λ t. t.id) s.state.tasks
    pub keyed_releases : (s : Service S) → P s → Keyed (λ r. r.id) s.state.releases
    pub keyed_devices : (s : Service S) → P s → Keyed (λ d. d.id) s.state.devices
    pub commit_task_law :
        (key aggregate : String) (t : Task) (r : Option Bool)
        → t.id ≡ key
        → Keeps P B (commit_task ports key aggregate (t, r))
    pub save_release_law :
        (key aggregate : String) (r : Release)
        → r.id ≡ key
        → Keeps P B (save_release ports key aggregate r)
    pub save_device_law :
        (key aggregate : String) (d : Device)
        → d.id ≡ key
        → Keeps P B (save_device ports key aggregate d)
    pub new_release_law :
        (aggregate : String) (r : Release)
        → Keeps P B (emit ports "release.created" aggregate (release_data r))
    pub new_device_law :
        (aggregate : String) (d : Device)
        → Keeps P B (emit ports "device.registered" aggregate (device_data d))
    pub new_task_law :
        (aggregate : String) (t : Task)
        → Keeps P B (emit ports "task.created" aggregate (task_data t))
