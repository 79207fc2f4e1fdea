-- ===== src/Events.antt =====
-- A domain event (internal/events/event.go). `payload` is what `encoding/json` reads back from the
-- bytes of `Data`: the program writes a whole record there, and decodes it as the same type.
use go_prod22_go_project.Prelude.{String}
use go_prod22_go_project.Domain.Model.{Release, Device, Task, Time}

pub data Payload : Type 0 where
  release_data : Release → Payload
  device_data : Device → Payload
  task_data : Task → Payload
  -- bytes that are no such record
  raw : String → Payload

pub record Event : Type 0 where
  pub id : String
  pub type : String
  pub aggregate : String
  pub payload : Payload
  pub at : Time
