-- ===== src/Service/Devices.antt =====
-- The devices (internal/service/service.go, reporting.go).
use go_prod22_go_project.Prelude.{String, Bool, true, ◌==◌, not, List, keep, string_eq}
use go_prod22_go_project.Prelude.Map.{values}
use go_prod22_go_project.Domain.Model.{Device}
use go_prod22_go_project.Domain.Errors.{not_found, message}
use go_prod22_go_project.Events.{device_data}
use go_prod22_go_project.Store.{State}
use go_prod22_go_project.Service.Base.{Ports, Cmd, pure, guard, find_device, clock_now, ◌>>=◌, ◌>>◌}
use go_prod22_go_project.Service.Core.{emit, save_device}

module _ {S : Type 0} (ports : Ports S) where
  unfoldable pub register_device : String → String → List String → Cmd S Device
  register_device id fw caps = do
    guard (not (id == "")) (message "device id required")
    registered ← clock_now ports
    seen ← clock_now ports
    let d : Device = record {
      id = id;
      firmware = fw;
      capabilities = caps;
      registered_at = registered;
      last_seen = seen;
      online = true;
    }
    emit ports "device.registered" id (device_data d)
    pure d

  unfoldable pub device_heartbeat : String → Bool → Cmd S (Unit {0})
  device_heartbeat id online = do
    d ← find_device id not_found
    now ← clock_now ports
    save_device ports id id (record d { online = online; last_seen = now })

unfoldable pub online_devices : State → List Device
online_devices st = keep (λ d. d.online) (values st.devices)
