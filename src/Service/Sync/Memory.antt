-- ===== src/Service/Sync/Memory.antt =====
-- The store in memory as a store that keeps a log (internal/store/memory.go).
use go_prod22_go_project.Prelude.{refl, inl, ℕ, String}
use go_prod22_go_project.Domain.Model.{Time}
use go_prod22_go_project.Store.Memory.{MemoryStore, memory_store}
use go_prod22_go_project.Service.Base.{Ports}
use go_prod22_go_project.Service.Sync.Journal.{Journal}

-- The ports of a service over the store in memory.
abbrev pub memory_ports : (ℕ → Time) → (String → ℕ → String) → Ports MemoryStore
memory_ports clock ids = record { store = memory_store; clock = clock; ids = ids }

-- The store in memory keeps its events in the order in which they were appended, takes every
-- snapshot, and loads both back, whatever the clock and the ids.
abbrev pub memory_journal :
    (clock : ℕ → Time) (ids : String → ℕ → String) → Journal (memory_ports clock ids)
memory_journal clock ids = record {
  log = λ m. m.events;
  snap = λ m. m.snap;
  Good = λ m. Unit {0};
  Readable = λ m. Unit {0};
  append_ok = λ n m type aggregate v st h g. refl;
  append_good = λ n m type aggregate v st h g. tt;
  log_append = λ n m type aggregate v st h g. refl;
  snap_append = λ n m type aggregate v st h g. refl;
  snapshot_good = λ x st g. tt;
  log_snapshot = λ x st g. refl;
  snap_snapshot = λ x st g. inl refl;
  load_good = λ st g r. tt;
  log_load = λ st g r. refl;
  snap_load = λ st g r. refl;
  log_kept = λ st g r. refl;
  snap_kept = λ st g r. refl;
}
