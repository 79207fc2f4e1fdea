-- ===== src/Scenarios/Files.antt =====
-- The theorems on the checks, the exports and the plain store, at concrete disks.
use go_prod22_go_project.Prelude.{
  ℕ, String, Option, none, some, false, ◌≡◌, refl, ap, subst, [], ◌∷◌, length, drop, arith,
}
use go_prod22_go_project.Prelude.Map.{lookup}
use go_prod22_go_project.Domain.Errors.{ok}
use go_prod22_go_project.Domain.Model.{is_zero}
use go_prod22_go_project.Store.{empty_state}
use go_prod22_go_project.Store.Lines.{Bytes, newline}
use go_prod22_go_project.Store.Json.{Json, ReadsBack}
use go_prod22_go_project.Store.File.{FileStore, load}
use go_prod22_go_project.Store.File.Log.{Serves, append_all, load-append_all}
use go_prod22_go_project.Store.Durable.{load_report, log_file, snapshot_file}
use go_prod22_go_project.Store.Durable.Log.{content, kept, logged}
use go_prod22_go_project.Store.Durable.Maintenance.{check}
use go_prod22_go_project.Store.Durable.Maintenance.Counts.{check-load}
use go_prod22_go_project.Store.Export.{Export, export_to, import_export, validate}
use go_prod22_go_project.Store.Export.RoundTrip.{import_export-export_to}
use go_prod22_go_project.Scenarios.Codes.{number, pair, through, list}
use go_prod22_go_project.Scenarios.Codes.Types
use go_prod22_go_project.Scenarios.Codes.Values.{
  json_of, json_of-IsJson, decoded_value, event, state, exported,
}
use go_prod22_go_project.Scenarios.Stores.{sound_os, store_at, store_at-Healthy}
use go_prod22_go_project.Scenarios.Crashes.{sighting, sighted, sighted-Intact, sighted-Readable}

check-load_example :
    (calls : ℕ) × (check store_at sighted ≡ (
      record {
        records = length (load_report store_at sighted).0.events;
        invalid = 0;
        bytes = length (content (lookup log_file sighted.files));
        version = store_at.version;
        error = none;
      },
      record { files = sighted.files; calls = calls },
    ))
check-load_example = check-load store_at sighted store_at-Healthy sighted-Intact sighted-Readable

abbrev folder : String → String
folder path = "."

clock_reads : (n : ℕ) → is_zero (store_at.os.time n) ≡ false
clock_reads n = ground arith

-- Exports on more than one line.
unfoldable indented : Json Export
unfolding exported
indented = record {
  marshal = λ x. some (newline ∷ exported.put x (newline ∷ []));
  unmarshal = λ b. decoded_value exported (exported.get (drop 1 b));
}

after_line : Option Bytes → Bytes
after_line none = []
after_line (some b) = drop 1 b

indented-ReadsBack : ReadsBack indented
unfolding indented after_line
indented-ReadsBack = record {
  unmarshal-marshal = λ x b h.
      subst (λ c. decoded_value exported (exported.get c) ≡ some x) (ap after_line h)
        (rw (exported.get-put x (newline ∷ [])) refl);
}

export_encodes : (x : Export) → (b : Bytes) × (indented.marshal x ≡ some b)
unfolding indented
export_encodes x = (_, refl)

import_export-export_to_example :
    let (r, disk') = export_to store_at folder indented "backup.json" sighted in
    (r ≡ ok tt)
    × ((x : Export) × ((import_export store_at folder indented "backup.json" disk').0 ≡ ok x)
        × (validate x ≡ ok tt)
        × (x.state ≡ kept store_at (lookup snapshot_file sighted.files))
        × (x.events ≡ logged store_at sighted))
import_export-export_to_example =
    import_export-export_to store_at folder indented "backup.json" sighted store_at-Healthy
      sighted-Intact sighted-Readable refl clock_reads indented-ReadsBack export_encodes

abbrev plain_store : FileStore
plain_store = record { dir = "data"; os = sound_os; events = json_of event; states = json_of state }

plain_store-Serves : Serves plain_store
unfolding json_of event list number pair through Types.text
plain_store-Serves = record {
  faultless = λ n. refl;
  events = json_of-IsJson event;
  encodes = λ e. (_, refl, refl);
}

load-append_all_example :
    (load plain_store (
      append_all plain_store
        (sighting ∷ record sighting { id = "e2" } ∷ [])
        (record { files = []; calls = 0 }))).0
    ≡ (empty_state, sighting ∷ record sighting { id = "e2" } ∷ [], none)
load-append_all_example =
    load-append_all plain_store plain_store-Serves (sighting ∷ record sighting { id = "e2" } ∷ []) 0
