-- ===== src/Store/Durable/Healthy.antt =====
-- The calls of the durable store where none of them fails.
use go_prod22_go_project.Prelude.{
  string_eq, ℕ, suc, none, some, true, false, ◌==◌, ◌≡◌, refl, [], ◌∷◌, ◌++◌,
}
use go_prod22_go_project.Prelude.Map.{Map, lookup}
use go_prod22_go_project.Prelude.Text.{trim_space}
use go_prod22_go_project.Domain.Errors.{ok}
use go_prod22_go_project.Events.{Event}
use go_prod22_go_project.Store.Lines.{Bytes, newline}
use go_prod22_go_project.Store.Disk.{
  Disk, or_raise, guard, ◌>>=◌, plain, call, open_append, write, created, extended,
}
use go_prod22_go_project.Store.Durable.{DurableStore, log_file, is_valid_event, ensure, append}

-- The directory has a name and no call fails.
pub record Healthy (d : DurableStore) : Type 0 where
  pub named : (trim_space d.dir == "") ≡ false
  pub faultless : (n : ℕ) → d.os.faults n ≡ none

-- The files after an append.
abbrev pub appended : Bytes → Map Bytes → Map Bytes
appended b files =
    let opened = created log_file (lookup log_file files) files in
    extended log_file (b ++ newline ∷ []) (lookup log_file opened) opened

module _ (d : DurableStore) (healthy : Healthy d) where
  pub append_run :
      (e : Event) (b : Bytes) (disk : Disk)
      → is_valid_event e ≡ true
      → d.records.marshal (record { version = d.version; event = e }) ≡ some b
      → (calls : ℕ) × (append d e disk
          ≡ (ok tt, record { files = appended b disk.files; calls = calls }))
  unfolding append ensure guard plain call open_append or_raise write ◌>>=◌
  append_run e b disk valid encoded = (
    suc (suc (suc (suc disk.calls))),
    rw
        (
          healthy.named,
          healthy.faultless disk.calls,
          valid,
          healthy.faultless (suc disk.calls),
          encoded,
          healthy.faultless (suc (suc disk.calls)),
          healthy.faultless (suc (suc (suc disk.calls))),
        )
        refl,
  )
