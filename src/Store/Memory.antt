-- ===== src/Store/Memory.antt =====
-- The store in memory (internal/store/memory.go).
use go_prod22_go_project.Prelude.{List, [], ◌∷◌, ◌++◌, none}
use go_prod22_go_project.Events.{Event}
use go_prod22_go_project.Store.{State, StoreOps, empty_state}

pub record MemoryStore : Type 0 where
  pub events : List Event
  pub snap : State

abbrev pub new_memory_store : MemoryStore
new_memory_store = record { events = []; snap = empty_state }

abbrev pub memory_store : StoreOps MemoryStore
memory_store = record {
  append = λ e m. (none, record m { events = m.events ++ e ∷ [] });
  snapshot = λ s m. (none, record m { snap = s });
  load = λ m. ((m.snap, m.events, none), m);
}
