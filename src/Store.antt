-- ===== src/Store.antt =====
-- The state that is stored, and what a store offers (internal/store/store.go).
pub mod Memory
pub mod Lines
pub mod Disk
pub mod Json
pub mod Durable
pub mod File
pub mod Export
pub mod Journal
use go_prod22_go_project.Prelude.{String, Option, List, [], Bool}
use go_prod22_go_project.Prelude.Map.{Map}
use go_prod22_go_project.Domain.Model.{Release, Device, Task}
use go_prod22_go_project.Domain.Errors.{Error}
use go_prod22_go_project.Events.{Event}

pub record State : Type 0 where
  pub releases : Map Release
  pub devices : Map Device
  pub tasks : Map Task
  pub audit : List Event

abbrev pub empty_state : State
empty_state = record { releases = []; devices = []; tasks = []; audit = [] }

-- The interface `Store`, over the store's own state `S`. `load` may repair the store.
pub record StoreOps (S : Type 0) : Type 0 where
  pub append : Event → S → Option Error × S
  pub snapshot : State → S → Option Error × S
  pub load : S → (State × List Event × Option Error) × S
