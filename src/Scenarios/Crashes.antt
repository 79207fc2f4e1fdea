-- ===== src/Scenarios/Crashes.antt =====
-- The theorems on the durable store, at a disk with one record, torn or not.
use go_prod22_go_project.Prelude.{
  ℕ, none, pos, ◌≡◌, refl, [], ◌∷◌, arith, some, ◌++◌, if◌then◌else◌, eqb, ◌⊎◌,
}
use go_prod22_go_project.Prelude.Map.{lookup, insert}
use go_prod22_go_project.Store.Durable.Load.{Readable, load_lem}
use go_prod22_go_project.Store.Durable.Atomic.{Snaps, snapshot_atomic}
use go_prod22_go_project.Store.Lines.{drop_return, lines, Bytes}
use go_prod22_go_project.Store.Durable
use go_prod22_go_project.Store.Lines.Text
use go_prod22_go_project.Events.{raw, Event}
use go_prod22_go_project.Scenarios.Codes.Types
use go_prod22_go_project.Store.{empty_state}
use go_prod22_go_project.Store.Durable.{
  RecoveryReport, log_file, snapshot_file, buffer_size, load_report, DurableStore,
}
use go_prod22_go_project.Domain.Errors.{message}
use go_prod22_go_project.Store.Durable.Torn.{load_torn}
use go_prod22_go_project.Store.Lines.Text.{AreShort}
use go_prod22_go_project.Store.Durable.Log.{
  logged, decoded, kept, Intact, IsSnapshot, AreSound, decode_record,
}
use go_prod22_go_project.Scenarios.Codes.{number, pair, through, list, put_items, get_items}
use go_prod22_go_project.Scenarios.Codes.Types.{integer}
use go_prod22_go_project.Scenarios.Codes.Values.{event, payload, json_of, json_of-IsJson, envelope}
use go_prod22_go_project.Store.Disk.{Disk, Os}
use go_prod22_go_project.Scenarios.Stores.{sound_os, store_at, store_at-Healthy}

abbrev pub sighting : Event
sighting = record {
  id = "e1";
  type = "device.seen";
  aggregate = "left";
  payload = raw "here";
  at = pos 900;
}

abbrev pub sighting_bytes : Bytes
sighting_bytes = envelope.put (record { version = pos 1; event = sighting }) []

abbrev pub sighted : Disk
sighted = record { files = (log_file, sighting_bytes ++ 10 ∷ []) ∷ []; calls = 7 }

sighted-AreSound : AreSound store_at (sighting_bytes ∷ [])
unfolding json_of
sighted-AreSound =
    let (reads, whole) =
      decode_record store_at (json_of-IsJson envelope) sighting sighting_bytes refl refl in
    (whole, (sighting, reads), tt)

pub sighted-Intact : Intact store_at sighted
unfolding lookup Text.text
sighted-Intact = record {
  records = sighting_bytes ∷ [];
  sound = sighted-AreSound;
  log = refl;
  snap = tt;
}

pub sighted-Readable : Readable sighted
unfolding lookup lines envelope event payload list number pair through put_items integer Types.text
sighted-Readable = (omega arith, tt)

load_lem_example :
    (report : RecoveryReport) × (calls : ℕ) × (load_report store_at sighted ≡ (
      record {
        state = kept store_at (lookup snapshot_file sighted.files);
        events = logged store_at sighted;
        report = report;
        error = none;
      },
      record { files = sighted.files; calls = calls },
    ))
    × (report.corrupt_records ≡ 0)
load_lem_example = load_lem store_at sighted store_at-Healthy sighted-Intact sighted-Readable

-- A disk on which one call fails, after a write of ten bytes.
abbrev weak_os : Os
weak_os = record sound_os {
  faults =
      λ n. if eqb n 12 then some (record { cause = message "disk full"; written = 10 }) else none;
}

abbrev weak_store : DurableStore
weak_store = record store_at { os = weak_os }

snapshot_atomic_example :
    let disk' = (Durable.snapshot weak_store empty_state sighted).1 in
    (lookup log_file disk'.files ≡ lookup log_file sighted.files)
    × ((lookup snapshot_file disk'.files ≡ lookup snapshot_file sighted.files)
        ⊎ ((b : Bytes) × Snaps weak_store empty_state b
            × (lookup snapshot_file disk'.files ≡ some b)))
snapshot_atomic_example = snapshot_atomic weak_store empty_state sighted

-- The log with a record that a crash cut short.
abbrev torn : Disk
torn = record {
  files = (log_file, (sighting_bytes ++ 10 ∷ []) ++ (100 ∷ 101 ∷ [])) ∷ [];
  calls = 7;
}

torn_unread : Durable.decode store_at (drop_return (100 ∷ 101 ∷ [])) ≡ none
unfolding Durable.decode drop_return json_of envelope event list number pair through get_items
    integer Types.text
torn_unread = refl

sighted-AreShort : AreShort buffer_size (sighting_bytes ∷ (100 ∷ 101 ∷ []) ∷ [])
unfolding envelope event payload list number pair through put_items integer Types.text
sighted-AreShort = (omega arith, (omega arith, tt))

torn_lines : lines (100 ∷ 101 ∷ []) ≡ (100 ∷ 101 ∷ []) ∷ []
unfolding lines
torn_lines = refl

torn_log : lookup log_file torn.files ≡ some (Text.text (sighting_bytes ∷ []) ++ (100 ∷ 101 ∷ []))
unfolding lookup Text.text
torn_log = refl

torn-IsSnapshot : IsSnapshot store_at (lookup snapshot_file torn.files)
unfolding lookup
torn-IsSnapshot = tt

load_torn_example :
    (report : RecoveryReport) × (calls : ℕ) × (load_report store_at torn ≡ (
      record {
        state = kept store_at (lookup snapshot_file torn.files);
        events = decoded store_at (sighting_bytes ∷ []);
        report = report;
        error = none;
      },
      record {
        files = insert log_file (Text.text (sighting_bytes ∷ [])) torn.files;
        calls = calls;
      },
    ))
    × (report.corrupt_records ≡ 1)
    × (report.truncated_bytes ≡ 2)
    × Intact store_at (record {
      files = insert log_file (Text.text (sighting_bytes ∷ [])) torn.files;
      calls = calls;
    })
load_torn_example =
    load_torn store_at torn (sighting_bytes ∷ []) (100 ∷ 101 ∷ []) [] (100 ∷ 101 ∷ [])
      store_at-Healthy refl torn-IsSnapshot sighted-AreSound sighted-AreShort torn_lines torn_unread
      torn_log
