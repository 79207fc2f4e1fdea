-- ===== src/Store/Durable.antt =====
-- The durable store (internal/store/durable.go, maintenance.go).
pub mod Healthy
pub mod Replace
pub mod Atomic
pub mod Log
pub mod Load
pub mod Torn
pub mod Maintenance
use go_prod22_go_project.Prelude.{
  ℕ, suc, ◌+◌, ◌-◌, ℤ, pos, String, Option, none, some, Bool, true, false, not, ◌||◌, ◌==◌,
  if◌then◌else◌, List, [], ◌∷◌, ◌++◌, length, ltb, string_eq, int_eq,
}
use go_prod22_go_project.Prelude.Map.{lookup, insert}
use go_prod22_go_project.Prelude.Text.{trim_space}
use go_prod22_go_project.Domain.Model.{Time, is_zero}
use go_prod22_go_project.Domain.Errors.{Error, Result, ok, err, panic, message}
use go_prod22_go_project.Events.{Event}
use go_prod22_go_project.Store.{State, StoreOps, empty_state}
use go_prod22_go_project.Store.Lines.{Bytes, newline, lines, scan, drop_return}
use go_prod22_go_project.Store.Disk.{
  Disk, Os, Io, Contents, found, missing, failed, pure, lift, or_raise, attempt, finally, guard,
  ◌>>=◌, ◌>>◌, plain, open_append, write, create_temp, rename, remove, truncate, stat, read_file,
  now,
}
use go_prod22_go_project.Store.Json.{Json}

pub record Envelope : Type 0 where
  pub version : ℤ
  pub event : Event

pub record SnapshotEnvelope : Type 0 where
  pub version : ℤ
  pub state : State
  pub written_at : Time

pub record RecoveryReport : Type 0 where
  pub events_read : ℕ
  pub corrupt_records : ℕ
  pub truncated_bytes : ℕ
  pub snapshot_loaded : Bool
  pub version : ℤ
  pub last_valid_offset : ℕ
  pub corruption_detail : List ℕ

abbrev pub log_file : String
log_file = "events.jsonl"

abbrev pub snapshot_file : String
snapshot_file = "snapshot.json"

-- The longest line that the scanner's buffer holds, and one more.
abbrev pub buffer_size : ℕ
buffer_size = 8388608

-- The fields of the store, with the directory's files apart (`Disk`), and the JSON of its records.
pub record DurableStore : Type 0 where
  pub dir : String
  pub version : ℤ
  pub truncate_corrupt : Bool
  pub os : Os
  pub records : Json Envelope
  pub snapshots : Json SnapshotEnvelope

-- What `LoadReport` returns.
pub record Loaded : Type 0 where
  pub state : State
  pub events : List Event
  pub report : RecoveryReport
  pub error : Option Error

-- What the loop over the log's lines has read, and the offset at which it stopped to truncate.
pub record Reading : Type 0 where
  pub events : List Event
  pub report : RecoveryReport
  pub cut : Option ℕ

abbrev pub is_valid_event : Event → Bool
is_valid_event e = not (e.id == "" || e.type == "" || is_zero e.at)

-- The first of two errors.
abbrev pub first_error : Result (Unit {0}) → Result (Unit {0}) → Result (Unit {0})
first_error (ok a) r = r
first_error (err e) r = err e
first_error panic r = panic

abbrev pub error_of : Result (Unit {0}) → Option Error
error_of (ok a) = none
error_of (err e) = some e
error_of panic = none

-- The error of a scanner, by whether a line was too long.
abbrev pub scan_error : Bool → Option Error
scan_error true = some (message "bufio.Scanner: token too long")
scan_error false = none

module _ (d : DurableStore) where
  open d use {os, version}

  unfoldable pub ensure : Io (Unit {0})
  unfolding guard plain
  ensure = do guard (not (trim_space d.dir == "")) (message "store directory is required"); plain os

  unfoldable pub append : Event → Io (Unit {0})
  append e = do
    ensure
    guard (is_valid_event e) (message "event id, type and timestamp are required")
    open_append os log_file
    b ←
        or_raise (d.records.marshal (record { version = version; event = e }))
          (message "encode event")
    write os log_file (b ++ newline ∷ [])
    plain os

  unfoldable pub sync_dir : Io (Unit {0})
  sync_dir = if os.windows then pure tt else do plain os; plain os

  -- `Chmod`, `Write`, `Sync`.
  unfoldable pub fill : String → Bytes → Io (Unit {0})
  fill name payload = do plain os; write os name payload; plain os

  unfoldable pub replace_snapshot : String → Bytes → Io (Unit {0})
  unfolding fill sync_dir
  replace_snapshot name payload = do
    filled ← attempt (fill name payload)
    closed ← attempt (plain os)
    lift (first_error filled closed)
    rename os name snapshot_file
    sync_dir

  unfoldable pub snapshot : State → Io (Unit {0})
  snapshot s = do
    ensure
    at ← now os
    let envelope : SnapshotEnvelope = record { version = version; state = s; written_at = at }
    payload ← or_raise (d.snapshots.marshal envelope) (message "encode snapshot")
    name ← create_temp os
    finally (replace_snapshot name payload) (remove os name)

  abbrev pub empty_report : RecoveryReport
  empty_report = record {
    events_read = 0;
    corrupt_records = 0;
    truncated_bytes = 0;
    snapshot_loaded = false;
    version = version;
    last_valid_offset = 0;
    corruption_detail = [];
  }

  -- The snapshot: the state and whether it was loaded, or an error.
  abbrev pub accept_snapshot : Option SnapshotEnvelope → Result (State × Bool)
  accept_snapshot none = err (message "snapshot is corrupt")
  accept_snapshot (some env) =
      if env.version == version
      then ok (env.state, true)
      else err (message "snapshot version is unsupported")

  -- A snapshot that cannot be read is passed over.
  abbrev pub read_snapshot : Contents → Result (State × Bool)
  read_snapshot (found b) = accept_snapshot (d.snapshots.unmarshal b)
  read_snapshot missing = ok (empty_state, false)
  read_snapshot (failed e) = ok (empty_state, false)

  -- The test of the loop.
  abbrev pub accept_record : Option Envelope → Option Event
  accept_record none = none
  accept_record (some env) =
      if not (env.version == version) || env.event.id == "" then none else some env.event

  unfoldable pub decode : Bytes → Option Event
  decode line = accept_record (d.records.unmarshal line)

  abbrev pub counted : ℕ → Event → Reading → Reading
  counted offset e r = record r {
    events = r.events ++ e ∷ [];
    report = record r.report { events_read = suc r.report.events_read; last_valid_offset = offset };
  }

  abbrev pub spoiled : ℕ → Reading → Reading
  spoiled offset r = record r {
    report = record r.report {
      corrupt_records = suc r.report.corrupt_records;
      corruption_detail = r.report.corruption_detail ++ offset ∷ [];
    };
  }

  abbrev pub on_event : Option Event → (Event → Reading) → Reading → Reading
  on_event (some e) valid corrupt = valid e
  on_event none valid corrupt = corrupt

  unfoldable pub read_records : List Bytes → ℕ → Reading → Reading
  unfolding decode
  read_records [] offset r = r
  read_records (line ∷ ls) offset r =
      let next = offset + length line + 1 in
      let skipped = read_records ls next (spoiled offset r) in
      on_event (decode line) (λ e. read_records ls next (counted next e r))
        (if d.truncate_corrupt then record (spoiled offset r) { cut = some offset } else skipped)

  -- The bytes that were cut off.
  abbrev pub cut_bytes : Result (Unit {0}) → ℕ → ℕ
  cut_bytes (ok a) bytes = bytes
  cut_bytes (err e) bytes = 0
  cut_bytes panic bytes = 0

  abbrev pub truncate_sized : Result ℕ → ℕ → Disk → ℕ × Disk
  truncate_sized (ok size) offset disk =
      let (cut, disk') = truncate os log_file offset disk in
      if ltb offset size then (cut_bytes cut (size - offset), disk') else (0, disk)
  truncate_sized (err e) offset disk = (0, disk)
  truncate_sized panic offset disk = (0, disk)

  unfoldable pub truncate_from : ℕ → Disk → ℕ × Disk
  truncate_from offset disk =
      let (sized, disk') = stat os log_file disk in truncate_sized sized offset disk'

  -- The end of `LoadReport`. A loop that stopped to truncate has not met a line that is too long.
  abbrev pub finish_load : Option ℕ → State → Bool → Reading → Disk → Loaded × Disk
  finish_load none state long r disk = (
    record { state = state; events = r.events; report = r.report; error = scan_error long },
    disk,
  )
  finish_load (some offset) state long r disk =
      let (bytes, disk') = truncate_from offset disk in
      (
        record {
          state = state;
          events = r.events;
          report = record r.report { truncated_bytes = bytes };
          error = none;
        },
        disk',
      )

  abbrev pub load_log : State → RecoveryReport → Contents → Disk → Loaded × Disk
  load_log state report missing disk =
      (record { state = state; events = []; report = report; error = none }, disk)
  load_log state report (failed e) disk =
      (record { state = state; events = []; report = report; error = some e }, disk)
  load_log state report (found b) disk =
      let (ls, long) = scan buffer_size (lines b) in
      let r = read_records ls 0 (record { events = []; report = report; cut = none }) in
      finish_load r.cut state long r disk

  abbrev pub load_checked : Result (State × Bool) → Disk → Loaded × Disk
  load_checked (ok (state, loaded)) disk =
      let (log, disk') = read_file os log_file disk in
      load_log state (record empty_report { snapshot_loaded = loaded }) log disk'
  load_checked (err e) disk =
      (record { state = empty_state; events = []; report = empty_report; error = some e }, disk)
  load_checked panic disk =
      (record { state = empty_state; events = []; report = empty_report; error = none }, disk)

  abbrev pub load_ensured : Result (Unit {0}) → Disk → Loaded × Disk
  load_ensured (ok a) disk =
      let (snap, disk') = read_file os snapshot_file disk in load_checked (read_snapshot snap) disk'
  load_ensured (err e) disk =
      (record { state = empty_state; events = []; report = empty_report; error = some e }, disk)
  load_ensured panic disk =
      (record { state = empty_state; events = []; report = empty_report; error = none }, disk)

  unfoldable pub load_report : Disk → Loaded × Disk
  unfolding ensure read_file read_records truncate_from
  load_report disk = let (r, disk') = ensure disk in load_ensured r disk'

  unfoldable pub durable_store : StoreOps Disk
  durable_store = record {
    append = λ e disk. let (r, disk') = append e disk in (error_of r, disk');
    snapshot = λ s disk. let (r, disk') = snapshot s disk in (error_of r, disk');
    load = λ disk. let (l, disk') = load_report disk in ((l.state, l.events, l.error), disk');
  }
