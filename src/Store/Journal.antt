-- ===== src/Store/Journal.antt =====
-- The statistics of a journal (internal/store/journal.go), and the decoding of events
-- (internal/store/codec.go).
pub mod Stats
use go_prod22_go_project.Prelude.{
  ℕ, String, Option, none, some, Bool, true, false, ◌||◌, if◌then◌else◌, List, [], ◌∷◌,
}
use go_prod22_go_project.Prelude.Map.{Map}
use go_prod22_go_project.Prelude.Map.Tally.{add_to}
use go_prod22_go_project.Domain.Model.{Time, zero_time, is_zero, before, after}
use go_prod22_go_project.Domain.Errors.{Error, message}
use go_prod22_go_project.Events.{Event}
use go_prod22_go_project.Store.Lines.{Bytes, lines, scan}
use go_prod22_go_project.Store.Json.{Json}
use go_prod22_go_project.Store.Disk.{Disk, Contents, found, missing, failed, read_file}
use go_prod22_go_project.Store.Durable.{DurableStore, log_file, buffer_size, scan_error}

pub record JournalStats : Type 0 where
  pub first : Time
  pub last : Time
  pub types : Map ℕ
  pub aggregates : Map ℕ

abbrev pub no_stats : JournalStats
no_stats = record { first = zero_time; last = zero_time; types = []; aggregates = [] }

unfoldable pub add_event : Event → JournalStats → JournalStats
unfolding add_to
add_event e s = record {
  first = if is_zero s.first || before e.at s.first then e.at else s.first;
  last = if after e.at s.last then e.at else s.last;
  types = add_to e.type 1 s.types;
  aggregates = add_to e.aggregate 1 s.aggregates;
}

-- `fn` is nil where it never fails.
module _ (events : Json Event) where
  module _ (fn : Event → Option Error) where
    -- After an event: the error of `fn` ends the loop.
    abbrev pub after_call :
        Option Error → JournalStats → JournalStats × Option Error → JournalStats × Option Error
    after_call none s rest = rest
    after_call (some e) s rest = (s, some e)

    abbrev pub on_line :
        Option Event
        → JournalStats
        → (JournalStats → JournalStats × Option Error)
        → JournalStats × Option Error
    on_line none s next = next s
    on_line (some e) s next = after_call (fn e) (add_event e s) (next (add_event e s))

    unfoldable pub read_lines :
        List Bytes → Option Error → JournalStats → JournalStats × Option Error
    unfolding add_event
    read_lines [] end s = (s, end)
    read_lines (l ∷ ls) end s = on_line (events.unmarshal l) s (read_lines ls end)

    unfoldable pub read_journal : Bytes → JournalStats × Option Error
    unfolding read_lines
    read_journal b =
        let (ls, long) = scan buffer_size (lines b) in read_lines ls (scan_error long) no_stats

  -- The default buffer of a scanner.
  abbrev pub default_buffer : ℕ
  default_buffer = 65536

  abbrev pub add_decoded : Option Event → List Event → List Event
  add_decoded none es = es
  add_decoded (some e) es = e ∷ es

  unfoldable pub decode_all : List Bytes → List Event
  decode_all [] = []
  decode_all (l ∷ ls) = add_decoded (events.unmarshal l) (decode_all ls)

  unfoldable pub decode_events : Bytes → List Event × Option Error
  unfolding decode_all
  decode_events b =
      let (ls, long) = scan default_buffer (lines b) in (decode_all ls, scan_error long)

module _ (d : DurableStore) (events : Json Event) where
  abbrev pub stats_of : Contents → JournalStats × Option Error
  stats_of (found b) = read_journal events (λ e. none) b
  stats_of missing = (no_stats, some (message "file does not exist"))
  stats_of (failed e) = (no_stats, some e)

  unfoldable pub journal_stats : Disk → (JournalStats × Option Error) × Disk
  unfolding read_journal
  journal_stats disk = let (log, disk') = read_file d.os log_file disk in (stats_of log, disk')
