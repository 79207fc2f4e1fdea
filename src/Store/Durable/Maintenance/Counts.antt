-- ===== src/Store/Durable/Maintenance/Counts.antt =====
-- What a check counts.
use go_prod22_go_project.Prelude.{
  ℕ, suc, ◌+◌, Option, none, some, true, ◌≡◌, refl, sym, ◌∙◌, ap, subst, List, [], ◌∷◌, length,
  arith, Bool-cases, inl, inr, ◌==◌, int_eq, string_eq,
}
use go_prod22_go_project.Prelude.Map.{lookup}
use go_prod22_go_project.Events.{Event}
use go_prod22_go_project.Store.Lines.{Bytes, lines}
use go_prod22_go_project.Store.Lines.Text.{text, AreShort, lines-text, scan_lem, drop_return_whole}
use go_prod22_go_project.Store.Disk.{Disk, contents, plain, call, pure, read_file, stat, ◌>>=◌}
use go_prod22_go_project.Store.Durable.{
  DurableStore, Envelope, log_file, buffer_size, decode, accept_record, load_report,
}
use go_prod22_go_project.Store.Durable.Healthy.{Healthy}
use go_prod22_go_project.Store.Durable.Log.{
  content, decoded, logged, AreSound, Intact, sound-AreWhole,
}
use go_prod22_go_project.Store.Durable.Load.{Readable, load_lem}
use go_prod22_go_project.Store.Durable.Maintenance.{
  Integrity, is_current, count_records, no_records, check, check_log,
}

module _ (d : DurableStore) where
  accepted : (o : Option Envelope) (e : Event) → accept_record d o ≡ some e → is_current d o ≡ true
  accepted none e h = cc
  accepted (some env) e h = elim (Bool-cases (env.version == d.version)) [
    | inl p ↦ p
    | inr p ↦ cc (rw p at h)
  ]

  count_sound :
      (bs : List Bytes) (out : Integrity)
      → AreSound d bs
      → count_records d bs out ≡ record out { records = out.records + length bs }
  unfolding count_records decode
  count_sound [] out h = ap (λ n. record out { records = n }) (omega arith)
  count_sound (b ∷ bs) out h =
      let (e, k) = h.1 in
      rw (accepted (d.records.unmarshal b) e k) (
        count_sound bs (record out { records = suc out.records }) h.2
        ∙ ap (λ n. record out { records = n }) (omega arith))

  -- The events of sound records are as many as the records.
  length-decoded : (bs : List Bytes) → AreSound d bs → length (decoded d bs) ≡ length bs
  unfolding decoded
  length-decoded [] h = refl
  length-decoded (b ∷ bs) h =
      let (e, k) = h.1 in rw (drop_return_whole b h.0, k) (ap suc (length-decoded bs h.2))

  check_found :
      (b : Bytes) (bs : List Bytes) (disk : Disk)
      → Healthy d
      → AreSound d bs
      → b ≡ text bs
      → lookup log_file disk.files ≡ some b
      → AreShort buffer_size (lines b)
      → check_log d (contents (some b)) disk ≡ (
        record (no_records d) { records = length (decoded d (lines b)); bytes = length b },
        record { files = disk.files; calls = suc disk.calls },
      )
  unfolding stat plain call pure ◌>>=◌
  check_found b bs disk healthy sound same at short =
      let whole = sound-AreWhole d bs sound in
      let split : lines b ≡ bs = ap lines same ∙ lines-text bs whole in
      let fits : AreShort buffer_size bs = subst (AreShort buffer_size) split short in
      let zeroed : 0 + length bs ≡ length bs = omega arith in
      rw
        (
          split,
          scan_lem buffer_size bs whole fits,
          healthy.faultless disk.calls,
          at,
          length-decoded bs sound,
        )
        (rw (count_sound bs (record (no_records d) { bytes = length b }) sound, zeroed) refl)

  check_content :
      (o : Option Bytes) (disk : Disk)
      → Healthy d
      → Intact d disk
      → lookup log_file disk.files ≡ o
      → AreShort buffer_size (lines (content o))
      → (calls : ℕ) × (check_log d (contents o) disk ≡ (
        record (no_records d) {
          records = length (decoded d (lines (content o)));
          bytes = length (content o);
        },
        record { files = disk.files; calls = calls },
      ))
  unfolding lines decoded
  check_content none disk healthy intact at short = (disk.calls, refl)
  check_content (some b) disk healthy intact at short =
      let same : b ≡ text intact.records = ap content (sym at) ∙ intact.log in
      (suc disk.calls, check_found b intact.records disk healthy intact.sound same at short)

  -- From an intact disk with a readable log, where no call fails, `Check` counts as many records as
  -- `LoadReport` returns events, none invalid, and the bytes of the log, and has no error; it leaves the files
  -- as they are.
  pub check-load :
      (disk : Disk)
      → Healthy d
      → Intact d disk
      → Readable disk
      → (calls : ℕ) × (check d disk ≡ (
        record {
          records = length (load_report d disk).0.events;
          invalid = 0;
          bytes = length (content (lookup log_file disk.files));
          version = d.version;
          error = none;
        },
        record { files = disk.files; calls = calls },
      ))
  unfolding check read_file logged
  check-load disk healthy intact readable =
      let (report, loads, loaded, clean) = load_lem d disk healthy intact readable in
      let later : Disk = record { files = disk.files; calls = suc disk.calls } in
      let intact' : Intact d later = record {
        records = intact.records;
        sound = intact.sound;
        log = intact.log;
        snap = intact.snap;
      } in
      let (calls, e) =
        check_content (lookup log_file disk.files) later healthy intact' refl readable in
      (calls, rw (healthy.faultless disk.calls, loaded) e)
