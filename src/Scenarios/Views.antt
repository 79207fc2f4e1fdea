-- ===== src/Scenarios/Views.antt =====
-- The theorems on summaries, statistics, health and metrics, at concrete states and logs.
use go_prod22_go_project.Prelude.{
  string_eq, ℤ, ◌≤◌, ◌≤ℤ◌, arith, ◌+◌, String, ◌==◌, none, some, pos, ◌≡◌, [], ◌∷◌, length, count,
}
use go_prod22_go_project.Prelude.Map.{lookup, values}
use go_prod22_go_project.Prelude.Map.Tally.{amount}
use go_prod22_go_project.Events.{Event, Payload, raw}
use go_prod22_go_project.Audit.{build, merge}
use go_prod22_go_project.Audit.Counts.{merge-build}
use go_prod22_go_project.Health.{detailed, healthy}
use go_prod22_go_project.Health.Verdict.{is_busy_in, detailed_lem}
use go_prod22_go_project.Recovery.{repairable}
use go_prod22_go_project.Service.Metrics.{
  metrics_snapshot, is_queued, is_running, is_done, is_failed, metrics_snapshot_lem,
}
use go_prod22_go_project.Store.Lines.{Bytes, lines, scan}
use go_prod22_go_project.Store.Json.{Json}
use go_prod22_go_project.Store.Durable.{buffer_size, scan_error}
use go_prod22_go_project.Store.Journal.{read_journal, decode_all}
use go_prod22_go_project.Store.Journal.Stats.{AreSpanned, read_journal_lem}
use go_prod22_go_project.Domain.Errors.{ok}
use go_prod22_go_project.Service.WellFormed.{WellFormed}
use go_prod22_go_project.Service.Ticking.{tick, tick_lem}
use go_prod22_go_project.Service.Reaping.Outcomes.{outcome}
use mathlib.Core.Option.{map}
use go_prod22_go_project.Scenarios.{ports}
use go_prod22_go_project.Scenarios.Runs.{prepared-WellFormed}
use go_prod22_go_project.Scenarios.Prepared.{prepared, left_task}

abbrev text_of : Payload → String
text_of (raw s) = s
text_of _ = ""

abbrev paused : Event
paused = record {
  id = "a1";
  type = "audit.pause";
  aggregate = "rel";
  payload = raw "ann";
  at = pos 30;
}

abbrev resumed : Event
resumed = record {
  id = "a2";
  type = "audit.resume";
  aggregate = "rel";
  payload = raw " ann ";
  at = pos 40;
}

merge-build_example :
    let parts =
      merge
        (build text_of (paused ∷ []) (pos 0) (pos 0) (pos 5))
        (build text_of (resumed ∷ paused ∷ []) (pos 0) (pos 0) (pos 5)) in
    let whole = build text_of (paused ∷ resumed ∷ paused ∷ []) (pos 0) (pos 0) (pos 5) in
    (parts.total ≡ whole.total)
    × ((k : String) → amount k parts.types ≡ amount k whole.types)
    × ((k : String) → amount k parts.aggregates ≡ amount k whole.aggregates)
    × ((k : String) → amount k parts.actors ≡ amount k whole.actors)
merge-build_example =
    merge-build text_of (pos 0) (pos 0) (paused ∷ []) (resumed ∷ paused ∷ []) (pos 5)

detailed_lem_example :
    (healthy (detailed prepared.state (pos 3000)) ≡ repairable prepared.state)
    × (amount "rel" (detailed prepared.state (pos 3000)).by_release
        ≡ count (is_busy_in "rel") (values prepared.state.tasks))
detailed_lem_example = detailed_lem prepared.state (pos 3000) "rel"

metrics_snapshot_lem_example :
    let m = metrics_snapshot (pos 3000) prepared.state in
    (m.queued ≡ count is_queued (values prepared.state.tasks))
    × (m.active ≡ count is_running (values prepared.state.tasks))
    × (m.completed ≡ count is_done (values prepared.state.tasks))
    × (m.failed ≡ count is_failed (values prepared.state.tasks))
metrics_snapshot_lem_example = metrics_snapshot_lem (pos 3000) prepared.state

-- Lines of one byte, one of which is an event.
abbrev letters : Json Event
letters = record {
  marshal = λ e. none;
  unmarshal = λ b. elim b [ [] ↦ none | c ∷ cs ↦ some (record paused { at = pos (c + 1) }) ];
}

abbrev journal : Bytes
journal = 97 ∷ 10 ∷ 10 ∷ 98 ∷ 10 ∷ []

read_journal_lem_example :
    let (ls, long) = scan buffer_size (lines journal) in
    let es = decode_all letters ls in
    let (s, error) = read_journal letters (λ e. none) journal in
    (error ≡ scan_error long)
    × ((k : String) → amount k s.types ≡ count (λ e. e.type == k) es)
    × ((k : String) → amount k s.aggregates ≡ count (λ e. e.aggregate == k) es)
    × AreSpanned es s
read_journal_lem_example = read_journal_lem letters journal

tick_lem_example :
    let (r, s') = tick ports 3 prepared in
    (change : ℤ) × (r ≡ ok (change, 4))
    × (change ≤ℤ pos 0)
    × WellFormed s'.state
    × (length prepared.state.tasks ≤ length s'.state.tasks)
    × (lookup left_task.id s'.state.tasks
        ≡ map
            (outcome prepared.state.releases (ports.clock prepared.reads))
            (lookup left_task.id prepared.state.tasks))
tick_lem_example = tick_lem ports 3 prepared left_task.id prepared-WellFormed (omega arith)
