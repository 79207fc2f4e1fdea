-- ===== src/Store/Export/RoundTrip.antt =====
-- An export that was written is imported again.
use go_prod22_go_project.Prelude.{
  ℕ, suc, String, none, some, true, false, ◌==◌, ◌≡◌, refl, ◌∙◌, [], ltb, arith, string_eq, int_eq,
  eqb_ℤ_iff, eq_iff, Bool-cases, inl, inr,
}
use go_prod22_go_project.Prelude.Map.{Map, lookup, insert, lookup-insert}
use go_prod22_go_project.Domain.Model.{is_zero}
use go_prod22_go_project.Domain.Errors.{ok}
use go_prod22_go_project.Store.Lines.{Bytes}
use go_prod22_go_project.Store.Disk.{
  Disk, Os, pure, now, call, write, plain, read_file, or_raise, ◌>>=◌,
}
use go_prod22_go_project.Store.Json.{Json, ReadsBack}
use go_prod22_go_project.Store.File.{write_file}
use go_prod22_go_project.Store.Durable.{DurableStore, snapshot_file}
use go_prod22_go_project.Store.Durable.Healthy.{Healthy}
use go_prod22_go_project.Store.Durable.Log.{kept, logged, Intact}
use go_prod22_go_project.Store.Durable.Load.{Readable, load_lem}
use go_prod22_go_project.Store.Export.{
  Export, current_version, validate, export, export_to, import_export, stamped,
}

write_file_lem :
    (os : Os) (name : String) (b : Bytes) (disk : Disk)
    → ((n : ℕ) → os.faults n ≡ none)
    → (files : Map Bytes) × (calls : ℕ) × (write_file os name b disk
        ≡ (ok tt, record { files = files; calls = calls }))
      × (lookup name files ≡ some b)
unfolding write_file call write plain ◌>>=◌
write_file_lem os name b disk faultless =
    let same : (name == name) ≡ true = (eq_iff name name).1 refl in
    let emptied : lookup name (insert name [] disk.files) ≡ some [] =
      lookup-insert name name [] disk.files ∙ rw same refl in
    (
      insert name b (insert name [] disk.files),
      suc (suc (suc disk.calls)),
      rw
          (
            faultless disk.calls,
            faultless (suc disk.calls),
            emptied,
            faultless (suc (suc disk.calls)),
          )
          refl,
      lookup-insert name name b (insert name [] disk.files) ∙ rw same refl,
    )

module _ (d : DurableStore) (dir_of : String → String) (exports : Json Export) where
  -- The export of an intact disk.
  abbrev made : ℕ → Disk → Export
  made calls disk = record {
    version = d.version;
    generated_at = d.os.time calls;
    state = kept d (lookup snapshot_file disk.files);
    events = logged d disk;
  }

  export_run :
      (disk : Disk)
      → Healthy d
      → Intact d disk
      → Readable disk
      → (calls : ℕ) × (export d dir_of exports disk
          ≡ (ok (made calls disk), record { files = disk.files; calls = suc calls }))
  unfolding export stamped now pure ◌>>=◌
  export_run disk healthy intact readable =
      let (report, calls, e, clean) = load_lem d disk healthy intact readable in
      let none_corrupt : ltb 0 report.corrupt_records ≡ false = ground arith in
      (calls, rw (e, none_corrupt) refl)

  export_to_run :
      (path : String) (b : Bytes) (calls : ℕ) (disk : Disk)
      → Healthy d
      → exports.marshal (made calls disk) ≡ some b
      → export d dir_of exports disk
        ≡ (ok (made calls disk), record { files = disk.files; calls = suc calls })
      → (files : Map Bytes) × (calls' : ℕ) × (export_to d dir_of exports path disk
          ≡ (ok tt, record { files = files; calls = calls' }))
        × (lookup path files ≡ some b)
  unfolding export_to or_raise plain call pure ◌>>=◌
  export_to_run path b calls disk healthy encoded exported =
      elim (Bool-cases (dir_of path == ".")) [
        | inl here ↦
            let (files, calls', e, at) =
              write_file_lem d.os path b (record { files = disk.files; calls = suc calls })
                healthy.faultless in
            (files, calls', rw (exported, encoded, here, e) refl, at)
        | inr there ↦
            let (files, calls', e, at) =
              write_file_lem d.os path b (record { files = disk.files; calls = suc (suc calls) })
                healthy.faultless in
            (
              files,
              calls',
              rw (exported, encoded, there, healthy.faultless (suc calls), e) refl,
              at,
            )
      ]

  -- From an intact disk with a readable log, where no call fails, the store has the current version,
  -- the clock never reads zero and exports are encoded as texts that read back, of one line or of
  -- many: `ExportTo` succeeds, and
  -- `ImportExport` of the same path then returns an export that is valid, with the state of the
  -- snapshot and all events of the log.
  pub import_export-export_to :
      (path : String) (disk : Disk)
      → Healthy d
      → Intact d disk
      → Readable disk
      → d.version ≡ current_version
      → ((n : ℕ) → is_zero (d.os.time n) ≡ false)
      → ReadsBack exports
      → ((x : Export) → (b : Bytes) × (exports.marshal x ≡ some b))
      → let (r, disk') = export_to d dir_of exports path disk in
        (r ≡ ok tt)
        × ((x : Export) × ((import_export d dir_of exports path disk').0 ≡ ok x)
            × (validate x ≡ ok tt)
            × (x.state ≡ kept d (lookup snapshot_file disk.files))
            × (x.events ≡ logged d disk))
  unfolding import_export read_file validate
  import_export-export_to path disk healthy intact readable current clock json encodes =
      let (calls, exported) = export_run disk healthy intact readable in
      let (b, encoded) = encodes (made calls disk) in
      let (files, calls', e, at) = export_to_run path b calls disk healthy encoded exported in
      let same : (d.version == current_version) ≡ true =
        (eqb_ℤ_iff d.version current_version).1 current in
      rw e (
        refl,
        (
          made calls disk,
          rw
              (
                healthy.faultless calls',
                at,
                json.unmarshal-marshal (made calls disk) b encoded,
                same,
              )
              refl,
          rw (same, clock calls) refl,
          refl,
          refl,
        ),
      )
