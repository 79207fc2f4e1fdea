-- ===== src/Store/Durable/Torn.antt =====
-- The durable store after a crash: a log that goes on with a record that cannot be read.
use go_prod22_go_project.Prelude.{
  ℕ, suc, ◌+◌, ◌-◌, ◌<◌, none, some, true, ◌≡◌, refl, sym, ◌∙◌, ap, List, [], ◌∷◌, ◌++◌, length,
  take-append, length-append, append-nil, append_assoc, arith, ltb,
}
use go_prod22_go_project.Prelude.Map.{lookup, insert, lookup-insert}
use go_prod22_go_project.Store.{State}
use go_prod22_go_project.Store.Lines.{Bytes, lines, scan, drop_return}
use go_prod22_go_project.Store.Lines.Text.{
  text, AreShort, AreShort-append, lines-text_append, scan_append, drop_return_whole,
}
use go_prod22_go_project.Store.Disk.{
  Disk, contents, guard, plain, call, read_file, stat, truncate, pure, ◌>>=◌,
}
use go_prod22_go_project.Store.Durable.{
  DurableStore, RecoveryReport, Reading, empty_report, log_file, snapshot_file, buffer_size, ensure,
  counted, read_records, load_log, load_report, decode, truncate_from,
}
use go_prod22_go_project.Store.Durable.Healthy.{Healthy}
use go_prod22_go_project.Store.Durable.Load.{read_snapshot_lem}
use go_prod22_go_project.Store.Durable.Log.{
  decoded, kept, AreSound, IsSnapshot, Intact, sound-AreWhole,
}

module _ (d : DurableStore) where
  -- Sound records and one that cannot be read: the loop stops at it.
  read_torn :
      (bs : List Bytes) (bad : Bytes) (ls : List Bytes) (offset : ℕ) (r : Reading)
      → d.truncate_corrupt ≡ true
      → AreSound d bs
      → decode d bad ≡ none
      → let out = read_records d (bs ++ bad ∷ ls) offset r in
        (out.events ≡ r.events ++ decoded d bs)
        × (out.cut ≡ some (offset + length (text bs)))
        × (out.report.corrupt_records ≡ suc r.report.corrupt_records)
        × (out.report.events_read ≡ r.report.events_read + length bs)
  unfolding read_records decoded text
  read_torn [] bad ls offset r on h k =
      rw (k, on) (sym (append-nil r.events), ap (λ n. some n) (omega arith), refl, omega arith)
  read_torn (b ∷ bs) bad ls offset r on h k =
      let (e, reads) = h.1 in
      let next = offset + length b + 1 in
      let (events, cut, corrupt, count) = read_torn bs bad ls next (counted d next e r) on h.2 k in
      let size = length-append b (10 ∷ text bs) in
      rw (drop_return_whole b h.0, reads)
        (
          events ∙ append_assoc r.events (e ∷ []) (decoded d bs),
          cut ∙ ap (λ n. some n) (omega (arith, size)),
          corrupt,
          omega (arith, count),
        )

  -- The loop's report on such a log, and the bytes cut off.
  abbrev torn_reading : RecoveryReport → List Bytes → Reading
  torn_reading report ls = read_records d ls 0 (record { events = []; report = report; cut = none })

  not_empty : (rest bad : Bytes) (more : List Bytes) → lines rest ≡ bad ∷ more → 0 < length rest
  unfolding lines
  not_empty [] bad more h = cc
  not_empty (c ∷ rest) bad more h = omega arith

  torn_log :
      (state : State) (report : RecoveryReport) (bs : List Bytes) (bad : Bytes) (more : List Bytes)
      (rest : Bytes) (disk : Disk)
      → Healthy d
      → d.truncate_corrupt ≡ true
      → AreSound d bs
      → AreShort buffer_size bs
      → length bad < buffer_size
      → lines rest ≡ bad ∷ more
      → decode d (drop_return bad) ≡ none
      → lookup log_file disk.files ≡ some (text bs ++ rest)
      → (report' : RecoveryReport) × (calls : ℕ) × (load_log d state report
            (contents (some (text bs ++ rest)))
            disk
          ≡ (
            record { state = state; events = decoded d bs; report = report'; error = none },
            record { files = insert log_file (text bs) disk.files; calls = calls },
          ))
        × (report'.corrupt_records ≡ suc report.corrupt_records)
        × (report'.truncated_bytes ≡ length rest)
  unfolding truncate_from stat truncate plain call pure scan ◌>>=◌
  torn_log state report bs bad more rest disk healthy on sound short fits split k at =
      let whole = sound-AreWhole d bs sound in
      let short' : ltb (length bad) buffer_size ≡ true = ground arith in
      let (tail, long) = scan buffer_size more in
      let (events, cut, corrupt, count) =
        read_torn bs (drop_return bad) tail 0 (record { events = []; report = report; cut = none })
          on sound k in
      let size = length-append (text bs) rest in
      let fewer : ltb (length (text bs)) (length (text bs ++ rest)) ≡ true =
        ground (arith, size, not_empty rest bad more split) in
      let at_end : (torn_reading report (bs ++ drop_return bad ∷ tail)).cut
          ≡ some (length (text bs)) =
        cut ∙ ap (λ n. some n) (omega arith) in
      let cut_off : length (text bs ++ rest) - length (text bs) ≡ length rest =
        omega (arith, size) in
      let ls = bs ++ drop_return bad ∷ tail in
      (
        record (torn_reading report ls).report { truncated_bytes = length rest },
        suc (suc disk.calls),
        rw
            (
              lines-text_append bs rest whole,
              split,
              scan_append buffer_size bs (bad ∷ more) whole short,
              short',
              at_end,
              events,
              healthy.faultless disk.calls,
              at,
              healthy.faultless (suc disk.calls),
              at,
              fewer,
              cut_off,
              take-append (text bs) rest,
            )
            refl,
        corrupt,
        refl,
      )

  -- Where no call fails and the store truncates: from a log that holds sound records, then one that
  -- cannot be read and whatever follows it, `LoadReport` returns the snapshot's state and exactly
  -- the events before, without an error, reports one corrupt record and the number of bytes cut off, and
  -- leaves the log with the sound records alone, which is intact again. (None of these lines has
  -- 8 MB or more, and the snapshot, where there is one, can be read.)
  pub load_torn :
      (disk : Disk) (bs : List Bytes) (bad : Bytes) (more : List Bytes) (rest : Bytes)
      → Healthy d
      → d.truncate_corrupt ≡ true
      → IsSnapshot d (lookup snapshot_file disk.files)
      → AreSound d bs
      → AreShort buffer_size (bs ++ bad ∷ [])
      → lines rest ≡ bad ∷ more
      → decode d (drop_return bad) ≡ none
      → lookup log_file disk.files ≡ some (text bs ++ rest)
      → (report : RecoveryReport) × (calls : ℕ) × (load_report d disk ≡ (
        record {
          state = kept d (lookup snapshot_file disk.files);
          events = decoded d bs;
          report = report;
          error = none;
        },
        record { files = insert log_file (text bs) disk.files; calls = calls },
      ))
        × (report.corrupt_records ≡ 1)
        × (report.truncated_bytes ≡ length rest)
        × Intact d (record { files = insert log_file (text bs) disk.files; calls = calls })
  unfolding load_report ensure guard plain call read_file ◌>>=◌
  load_torn disk bs bad more rest healthy on snap sound short split k at =
      let (loaded, s) = read_snapshot_lem d (lookup snapshot_file disk.files) snap in
      let (fits, last) = AreShort-append bs bad short in
      let (report, calls, e, corrupt, cut) =
        torn_log (kept d (lookup snapshot_file disk.files))
          (record (empty_report d) { snapshot_loaded = loaded }) bs bad more rest
          (record { files = disk.files; calls = suc (suc (suc disk.calls)) }) healthy on sound fits
          last split k at in
      (
        report,
        calls,
        rw
            (
              healthy.named,
              healthy.faultless disk.calls,
              healthy.faultless (suc disk.calls),
              s,
              healthy.faultless (suc (suc disk.calls)),
              at,
              e,
            )
            refl,
        corrupt,
        cut,
        record {
          records = bs;
          sound = sound;
          log = rw (lookup-insert log_file log_file (text bs) disk.files) refl;
          snap = rw (lookup-insert log_file snapshot_file (text bs) disk.files) snap;
        },
      )
