-- ===== src/Store/File.antt =====
-- The plain store on files (internal/store/store.go, `FileStore`).
pub mod Log
use go_prod22_go_project.Prelude.{String, Option, none, some, List, [], ◌∷◌, ◌++◌}
use go_prod22_go_project.Prelude.Map.{insert}
use go_prod22_go_project.Domain.Errors.{Error, message}
use go_prod22_go_project.Events.{Event}
use go_prod22_go_project.Store.{State, StoreOps, empty_state}
use go_prod22_go_project.Store.Lines.{Bytes, newline, split_lines}
use go_prod22_go_project.Store.Disk.{
  Disk, Os, Io, Contents, found, missing, failed, or_raise, ◌>>=◌, ◌>>◌, plain, call, open_append,
  write, read_file,
}
use go_prod22_go_project.Store.Json.{Json}
use go_prod22_go_project.Store.Durable.{error_of}

pub record FileStore : Type 0 where
  pub dir : String
  pub os : Os
  pub events : Json Event
  pub states : Json State

abbrev pub event_file : String
event_file = "events.log"

abbrev pub state_file : String
state_file = "snapshot.json"

-- `os.WriteFile`: the file is emptied, written and closed.
unfoldable pub write_file : Os → String → Bytes → Io (Unit {0})
unfolding call write plain ◌>>=◌
write_file os name bytes = do call os (insert name []); write os name bytes; plain os

-- What is left of `Marshal` where its error is dropped.
abbrev pub bytes_of : Option Bytes → Bytes
bytes_of none = []
bytes_of (some b) = b

module _ (f : FileStore) where
  open f use {os}

  unfoldable pub append : Event → Io (Unit {0})
  append e = do
    plain os
    open_append os event_file
    write os event_file (bytes_of (f.events.marshal e) ++ newline ∷ [])

  unfoldable pub snapshot : State → Io (Unit {0})
  unfolding write_file
  snapshot s = do
    plain os
    b ← or_raise (f.states.marshal s) (message "encode state")
    write_file os state_file b

  -- The lines that are no event are passed over.
  abbrev pub add_decoded : Option Event → List Event → List Event
  add_decoded none es = es
  add_decoded (some e) es = e ∷ es

  unfoldable pub decode_lines : List Bytes → List Event
  decode_lines [] = []
  decode_lines (l ∷ ls) = add_decoded (f.events.unmarshal l) (decode_lines ls)

  abbrev pub load_events : State → Contents → State × List Event × Option Error
  load_events s missing = (s, [], none)
  load_events s (failed e) = (s, [], some e)
  load_events s (found b) = (s, decode_lines (split_lines b), none)

  -- A state that cannot be decoded ends the loading, with the error of the reading, which is nil.
  abbrev pub load_decoded : Option State → Disk → (State × List Event × Option Error) × Disk
  load_decoded none disk = ((empty_state, [], none), disk)
  load_decoded (some s) disk =
      let (log, disk') = read_file os event_file disk in (load_events s log, disk')

  abbrev pub load_state : Contents → Disk → (State × List Event × Option Error) × Disk
  load_state (found b) disk = load_decoded (f.states.unmarshal b) disk
  load_state missing disk = load_decoded (some empty_state) disk
  load_state (failed e) disk = load_decoded (some empty_state) disk

  unfoldable pub load : Disk → (State × List Event × Option Error) × Disk
  unfolding read_file decode_lines split_lines
  load disk = let (snap, disk') = read_file os state_file disk in load_state snap disk'

  unfoldable pub file_store : StoreOps Disk
  file_store = record {
    append = λ e disk. let (r, disk') = append e disk in (error_of r, disk');
    snapshot = λ s disk. let (r, disk') = snapshot s disk in (error_of r, disk');
    load = load;
  }
