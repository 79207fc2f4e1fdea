-- ===== src/Store/Export.antt =====
-- Exports of the durable store (internal/store/export.go).
pub mod RoundTrip
use go_prod22_go_project.Prelude.{
  ℕ, ℤ, pos, String, Option, none, some, Bool, true, false, not, ◌||◌, ◌==◌, if◌then◌else◌, List,
  [], ◌∷◌, ltb, string_eq, int_eq, sort_by,
}
use go_prod22_go_project.Prelude.Text.{str_ltb}
use go_prod22_go_project.Domain.Model.{Time, is_zero, zero_time}
use go_prod22_go_project.Domain.Errors.{Error, Result, ok, err, panic, message}
use go_prod22_go_project.Events.{Event}
use go_prod22_go_project.Store.{State, empty_state}
use go_prod22_go_project.Store.Lines.{Bytes}
use go_prod22_go_project.Store.Disk.{
  Disk, Os, Io, Contents, found, missing, failed, pure, lift, or_raise, guard, ◌>>=◌, ◌>>◌, plain,
  read_file, now,
}
use go_prod22_go_project.Store.Json.{Json}
use go_prod22_go_project.Store.File.{write_file}
use go_prod22_go_project.Store.Durable.{DurableStore, Loaded, load_report}

pub record Export : Type 0 where
  pub version : ℤ
  pub generated_at : Time
  pub state : State
  pub events : List Event

-- `CurrentVersion` of internal/store/durable.go.
abbrev pub current_version : ℤ
current_version = pos 1

unfoldable pub validate : Export → Result (Unit {0})
validate x =
    if not (x.version == current_version)
    then err (message "unsupported export version")
    else if is_zero x.generated_at
    then err (message "export timestamp is missing")
    else ok tt

-- The types of the events, without repetition, in the order of `sort.Strings`.
abbrev pub has_string : String → List String → Bool
has_string s [] = false
has_string s (t ∷ ts) = let rest = has_string s ts in if t == s then true else rest

unfoldable pub new_types : List String → List Event → List String
new_types seen [] = []
new_types seen (e ∷ es) =
    let skipped = new_types seen es in
    let added = e.type ∷ new_types (e.type ∷ seen) es in
    if has_string e.type seen then skipped else added

unfoldable pub event_types : Export → List String
unfolding new_types str_ltb
event_types x = sort_by str_ltb (new_types [] x.events)

-- The directory of a path, as `filepath.Dir` gives it, and the indented JSON of exports
-- (`MarshalIndent`), which has line breaks.
module _ (d : DurableStore) (dir_of : String → String) (exports : Json Export) where
  unfoldable pub stamped : Loaded → Io Export
  unfolding now pure ◌>>=◌
  stamped l = do
    at ← now d.os
    pure (record { version = d.version; generated_at = at; state = l.state; events = l.events })

  abbrev pub loaded_export : Option Error → Loaded → Io Export
  loaded_export (some e) l disk = (err e, disk)
  loaded_export none l disk =
      let made = stamped l disk in
      if ltb 0 l.report.corrupt_records
      then (err (message "cannot export corrupt journal"), disk)
      else made

  unfoldable pub export : Io Export
  unfolding stamped load_report
  export disk = let (l, disk') = load_report d disk in loaded_export l.error l disk'

  unfoldable pub export_to : String → Io (Unit {0})
  unfolding export write_file or_raise plain ◌>>=◌
  export_to path = do
    x ← export
    b ← or_raise (exports.marshal x) (message "encode export")
    (if dir_of path == "." then pure tt else plain d.os)
    write_file d.os path b

  abbrev pub accept_export : Option Export → Result Export
  accept_export none = err (message "decode export")
  accept_export (some x) =
      if not (x.version == current_version)
      then err (message "unsupported export version")
      else ok x

  abbrev pub imported : Contents → Result Export
  imported (found b) = accept_export (exports.unmarshal b)
  imported missing = err (message "file does not exist")
  imported (failed e) = err e

  unfoldable pub import_export : String → Io Export
  import_export path disk = let (c, disk') = read_file d.os path disk in (imported c, disk')
