-- ===== src/Service/Sync/Durable.antt =====
-- The durable store as a store that keeps a log (internal/store/durable.go), and the restart of a
-- service on it.
use go_prod22_go_project.Prelude.{
  ℕ, String, some, true, false, not, ◌||◌, ◌==◌, ◌≡◌, ◌≢◌, refl, sym, ◌∙◌, ap, List, [], ◌∷◌, ◌++◌,
  ◌⊎◌, inl, inr, arith, string_eq, int_eq, eq_iff,
}
use go_prod22_go_project.Prelude.Map.{lookup}
use go_prod22_go_project.Domain.Model.{Time, is_zero}
use go_prod22_go_project.Domain.Errors.{ok}
use go_prod22_go_project.Events.{Event, Payload}
use go_prod22_go_project.Store.{State}
use go_prod22_go_project.Store.Lines.{Bytes, lines}
use go_prod22_go_project.Store.Lines.Text.{text, text-append, lines-text}
use go_prod22_go_project.Store.Json.{IsJson}
use go_prod22_go_project.Store.Disk.{Disk}
use go_prod22_go_project.Store.Durable.{
  DurableStore, log_file, snapshot_file, append, snapshot, durable_store, decode,
}
use go_prod22_go_project.Store.Durable.Healthy.{Healthy, appended, append_run}
use go_prod22_go_project.Store.Durable.Atomic.{snapshot_atomic}
use go_prod22_go_project.Store.Durable.Log.{
  content, decoded, logged, kept, Intact, AreSound-append, sound-AreWhole, decoded-append,
  decode_record, appended_log, appended_snapshot,
}
use go_prod22_go_project.Store.Durable.Load.{Readable, load_lem}
use go_prod22_go_project.Service.Base.{Ports}
use go_prod22_go_project.Service.Core.{new}
use go_prod22_go_project.Service.Commands.{Command, run, NoPanic}
use go_prod22_go_project.Service.Sync.View.{SameView}
use go_prod22_go_project.Service.Sync.Recovery.{nothing, AllDirect, recovery}
use go_prod22_go_project.Service.Sync.Writes.{event}
use go_prod22_go_project.Service.Sync.Journal.{Journal}

abbrev pub durable_ports : DurableStore → (ℕ → Time) → (String → ℕ → String) → Ports Disk
durable_ports d clock ids = record { store = durable_store d; clock = clock; ids = ids }

-- What a service on the durable store relies on: no call fails, JSON reads back what it wrote, the
-- generator gives out no empty id, the clock never reads Go's zero time, and the records of events
-- with these ids and times can be encoded.
pub record Works (d : DurableStore) (clock : ℕ → Time) (ids : String → ℕ → String) : Type 0 where
  pub healthy : Healthy d
  pub records : IsJson d.records
  pub snapshots : IsJson d.snapshots
  pub ids_named : (n : ℕ) → ids "evt" n ≢ ""
  pub clock_set : (m : ℕ) → is_zero (clock m) ≡ false
  pub encodes :
      (n m : ℕ) (type aggregate : String) (v : Payload)
      → (b : Bytes) × (d.records.marshal
            (record { version = d.version; event = event (ids "evt" n) type aggregate v (clock m) })
          ≡ some b)

valid_lem :
    (id type : String) (at : Time)
    → id ≢ ""
    → type ≢ ""
    → is_zero at ≡ false
    → not (id == "" || type == "" || is_zero at) ≡ true
valid_lem id type at h k z = ground (arith, eq_iff id "", eq_iff type "")

module _ (d : DurableStore) (clock : ℕ → Time) (ids : String → ℕ → String)
    (works : Works d clock ids) where
  -- An append of a stamped event, its record and the intact disk after it.
  record Stored (e : Event) (disk : Disk) : Type 0 where
    bytes : Bytes
    calls : ℕ
    run : append d e disk ≡ (ok tt, record { files = appended bytes disk.files; calls = calls })
    reads : decode d bytes ≡ some e
    intact : Intact d (record { files = appended bytes disk.files; calls = calls })
    grown :
        logged d (record { files = appended bytes disk.files; calls = calls })
        ≡ logged d disk ++ e ∷ []

  store_lem :
      (n m : ℕ) (type aggregate : String) (v : Payload) (disk : Disk)
      → type ≢ ""
      → Intact d disk
      → Stored (event (ids "evt" n) type aggregate v (clock m)) disk
  unfolding logged
  store_lem n m type aggregate v disk named intact =
      let e = event (ids "evt" n) type aggregate v (clock m) in
      let (b, encoded) = works.encodes n m type aggregate v in
      let valid =
        valid_lem (ids "evt" n) type (clock m) (works.ids_named n) named (works.clock_set m) in
      let (calls, run) = append_run d works.healthy e b disk valid encoded in
      let (reads, whole) = decode_record d works.records e b valid encoded in
      let longer : content (lookup log_file (appended b disk.files))
          ≡ text (intact.records ++ b ∷ []) =
        appended_log d b disk.files
        ∙ ap (λ c. c ++ (b ++ 10 ∷ [])) intact.log
        ∙ sym (text-append intact.records b) in
      let sound = AreSound-append d intact.records b e intact.sound whole reads in
      let was : lines (content (lookup log_file disk.files)) ≡ intact.records =
        ap lines intact.log
        ∙ lines-text intact.records (sound-AreWhole d intact.records intact.sound) in
      let is : lines (content (lookup log_file (appended b disk.files)))
          ≡ intact.records ++ b ∷ [] =
        ap lines longer ∙ lines-text (intact.records ++ b ∷ []) (sound-AreWhole d _ sound) in
      record {
        bytes = b;
        calls = calls;
        run = run;
        reads = reads;
        intact = record {
          records = intact.records ++ b ∷ [];
          sound = sound;
          log = longer;
          snap = rw (appended_snapshot d b disk.files) intact.snap;
        };
        grown =
            ap (decoded d) is
            ∙ decoded-append d intact.records b e whole reads
            ∙ ap (λ ls. decoded d ls ++ e ∷ []) (sym was);
      }

  -- A snapshot leaves the disk intact, and keeps the old state or takes the new one.
  snapshot_lem :
      (x : State) (disk : Disk)
      → Intact d disk
      → let disk' = (snapshot d x disk).1 in
        Intact d disk'
        × (logged d disk' ≡ logged d disk)
        × ((kept d (lookup snapshot_file disk'.files) ≡ x)
            ⊎ (kept d (lookup snapshot_file disk'.files)
                ≡ kept d (lookup snapshot_file disk.files)))
  unfolding logged
  snapshot_lem x disk intact =
      let (log_same, taken) = snapshot_atomic d x disk in
      let log : content (lookup log_file (snapshot d x disk).1.files) ≡ text intact.records =
        ap content log_same ∙ intact.log in
      let same = ap (λ o. decoded d (lines (content o))) log_same in
      elim taken [
        | inl old ↦ (
          record {
            records = intact.records;
            sound = intact.sound;
            log = log;
            snap = rw old intact.snap;
          },
          same,
          inr (ap (kept d) old),
        )
        | inr (b, (at, encoded), new) ↦
            let e = works.snapshots.unmarshal-marshal _ b encoded in
            (
              record {
                records = intact.records;
                sound = intact.sound;
                log = log;
                snap = rw new (record { version = d.version; state = x; written_at = at }, e, refl);
              },
              same,
              inl (rw (new, e) refl),
            )
      ]

  abbrev pub durable_snap : Disk → State
  durable_snap disk = kept d (lookup snapshot_file disk.files)

  durable_journal : Journal (durable_ports d clock ids)
  unfolding durable_store logged
  durable_journal = record {
    log = logged d;
    snap = durable_snap;
    Good = Intact d;
    Readable = Readable;
    append_ok =
        λ n m type aggregate v disk h g. rw (store_lem n m type aggregate v disk h g).run refl;
    append_good = λ n m type aggregate v disk h g.
        let s = store_lem n m type aggregate v disk h g in rw s.run s.intact;
    log_append = λ n m type aggregate v disk h g.
        let s = store_lem n m type aggregate v disk h g in rw s.run s.grown;
    snap_append = λ n m type aggregate v disk h g.
        let s = store_lem n m type aggregate v disk h g in
        rw s.run (ap (kept d) (appended_snapshot d s.bytes disk.files));
    snapshot_good = λ x disk g. (snapshot_lem x disk g).0;
    log_snapshot = λ x disk g. (snapshot_lem x disk g).1;
    snap_snapshot = λ x disk g. (snapshot_lem x disk g).2;
    load_good = λ disk g r.
        let (report, calls, e, _) = load_lem d disk works.healthy g r in
        rw e (record { records = g.records; sound = g.sound; log = g.log; snap = g.snap });
    log_load =
        λ disk g r. let (report, calls, e, _) = load_lem d disk works.healthy g r in rw e refl;
    snap_load =
        λ disk g r. let (report, calls, e, _) = load_lem d disk works.healthy g r in rw e refl;
    log_kept =
        λ disk g r. let (report, calls, e, _) = load_lem d disk works.healthy g r in rw e refl;
    snap_kept =
        λ disk g r. let (report, calls, e, _) = load_lem d disk works.healthy g r in rw e refl;
  }

  -- On an empty directory with a name, where no call fails: a service on the durable store that gets
  -- any commands but `QueueRollback`, none of which panics, and of which some logged an event, can be
  -- restarted while no line of the log has 8 MB or more; the new service has the same releases,
  -- devices and tasks under the same ids, and the same audit. (Ids are not empty, clock readings not
  -- zero, and the JSON of events and states reads back.)
  pub durable_recovery :
      (calls : ℕ) (cs : List Command)
      → let ports = durable_ports d clock ids in
        let empty : Disk = record { files = []; calls = calls } in
        let before = run ports cs (new ports empty) in
        AllDirect cs
        → NoPanic ports cs (new ports empty)
        → logged d before.st ≢ []
        → Readable before.st
        → SameView nothing (new ports before.st).state before.state
  unfolding durable_journal logged decoded lines lookup text
  durable_recovery calls cs direct returned written readable =
      recovery (durable_ports d clock ids) durable_journal (record { files = []; calls = calls }) cs
        (record { records = []; sound = tt; log = refl; snap = tt }) tt refl refl direct returned
        written readable
