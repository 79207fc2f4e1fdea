-- ===== src/Store/Durable/Load.antt =====
-- What the durable store loads, where no call fails.
use go_prod22_go_project.Prelude.{
  ℕ, suc, Option, none, some, Bool, true, false, ◌==◌, ◌≡◌, refl, sym, ◌∙◌, ap, subst, List, [],
  int_eq, string_eq, eqb_ℤ_iff,
}
use go_prod22_go_project.Prelude.Map.{lookup}
use go_prod22_go_project.Domain.Errors.{ok}
use go_prod22_go_project.Store.{State}
use go_prod22_go_project.Store.Lines.{Bytes, lines}
use go_prod22_go_project.Store.Lines.Text.{text, AreShort, lines-text, scan_lem}
use go_prod22_go_project.Store.Disk.{Disk, contents, guard, plain, call, read_file, ◌>>=◌}
use go_prod22_go_project.Store.Durable.{
  DurableStore, RecoveryReport, empty_report, log_file, snapshot_file, buffer_size, ensure,
  read_snapshot, read_records, load_log, load_report,
}
use go_prod22_go_project.Store.Durable.Healthy.{Healthy}
use go_prod22_go_project.Store.Durable.Log.{
  content, decoded, logged, kept, AreSound, IsSnapshot, Intact, sound-AreWhole, read_records_lem,
}

-- The lines of the log fit the scanner's buffer.
abbrev pub Readable : Disk → Type 0
Readable disk = AreShort buffer_size (lines (content (lookup log_file disk.files)))

module _ (d : DurableStore) where
  pub read_snapshot_lem :
      (o : Option Bytes)
      → IsSnapshot d o
      → (loaded : Bool) × (read_snapshot d (contents o) ≡ ok (kept d o, loaded))
  read_snapshot_lem none h = (false, refl)
  read_snapshot_lem (some b) (env, e, v) =
      let same : (env.version == d.version) ≡ true = (eqb_ℤ_iff env.version d.version).1 v in
      (true, rw (e, same) refl)

  -- The report on sound records.
  abbrev report_of : RecoveryReport → List Bytes → RecoveryReport
  report_of report bs =
      (read_records d bs 0 (record { events = []; report = report; cut = none })).report

  read_text :
      (state : State) (report : RecoveryReport) (bs : List Bytes) (disk : Disk)
      → AreSound d bs
      → AreShort buffer_size bs
      → load_log d state report (contents (some (text bs))) disk ≡ (
        record { state = state; events = decoded d bs; report = report_of report bs; error = none },
        disk,
      )
  read_text state report bs disk sound short =
      let whole = sound-AreWhole d bs sound in
      let (events, cut, corrupt, count) =
        read_records_lem d bs 0 (record { events = []; report = report; cut = none }) sound in
      rw (lines-text bs whole, scan_lem buffer_size bs whole short, cut, events) refl

  load_log_lem :
      (state : State) (report : RecoveryReport) (o : Option Bytes) (bs : List Bytes) (disk : Disk)
      → AreSound d bs
      → content o ≡ text bs
      → AreShort buffer_size (lines (content o))
      → (report' : RecoveryReport) × (load_log d state report (contents o) disk ≡ (
        record {
          state = state;
          events = decoded d (lines (content o));
          report = report';
          error = none;
        },
        disk,
      ))
        × (report'.corrupt_records ≡ report.corrupt_records)
  unfolding lines decoded
  load_log_lem state report none bs disk sound same short = (report, refl, refl)
  load_log_lem state report (some b) bs disk sound same short =
      let split : lines b ≡ bs = ap lines same ∙ lines-text bs (sound-AreWhole d bs sound) in
      let e = read_text state report bs disk sound (subst (AreShort buffer_size) split short) in
      let (_, _, corrupt, _) =
        read_records_lem d bs 0 (record { events = []; report = report; cut = none }) sound in
      (
        report_of report bs,
        ap (λ x. load_log d state report (contents (some x)) disk) same
            ∙ e
            ∙ ap
                (λ ls. (
                  record {
                    state = state;
                    events = decoded d ls;
                    report = report_of report bs;
                    error = none;
                  },
                  disk,
                ))
                (sym split),
        corrupt,
      )

  -- From an intact disk with a readable log, where no call fails, `LoadReport` returns the snapshot's
  -- state and all events of the log, finds nothing corrupt and returns no error, and leaves the
  -- files as they are.
  pub load_lem :
      (disk : Disk)
      → Healthy d
      → Intact d disk
      → Readable disk
      → (report : RecoveryReport) × (calls : ℕ) × (load_report d disk ≡ (
        record {
          state = kept d (lookup snapshot_file disk.files);
          events = logged d disk;
          report = report;
          error = none;
        },
        record { files = disk.files; calls = calls },
      ))
        × (report.corrupt_records ≡ 0)
  unfolding load_report ensure guard plain call read_file logged ◌>>=◌
  load_lem disk healthy intact readable =
      let (loaded, snap) = read_snapshot_lem (lookup snapshot_file disk.files) intact.snap in
      let (report, e, corrupt) =
        load_log_lem (kept d (lookup snapshot_file disk.files))
          (record (empty_report d) { snapshot_loaded = loaded }) (lookup log_file disk.files)
          intact.records (record { files = disk.files; calls = suc (suc (suc disk.calls)) })
          intact.sound intact.log readable in
      (
        report,
        suc (suc (suc disk.calls)),
        rw
            (
              healthy.named,
              healthy.faultless disk.calls,
              healthy.faultless (suc disk.calls),
              snap,
              healthy.faultless (suc (suc disk.calls)),
              e,
            )
            refl,
        corrupt,
      )
