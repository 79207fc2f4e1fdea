-- ===== src/Store/Journal/Stats.antt =====
-- What the statistics of a journal say of its events.
use go_prod22_go_project.Prelude.{
  ◌+◌, ◌≤ℤ◌, String, Option, none, some, Bool, true, false, ◌||◌, ◌⊎◌, inl, inr, Bool-cases, ◌==◌,
  ◌≡◌, refl, List, [], ◌∷◌, count, string_eq, int_eq, arith,
}
use go_prod22_go_project.Prelude.Map.{lookup}
use go_prod22_go_project.Prelude.Map.Tally.{amount, amount-add_to}
use go_prod22_go_project.Domain.Model.{Time, is_zero, zero_time}
use go_prod22_go_project.Domain.Errors.{Error}
use go_prod22_go_project.Events.{Event}
use go_prod22_go_project.Store.Lines.{Bytes, lines, scan}
use go_prod22_go_project.Store.Json.{Json}
use go_prod22_go_project.Store.Durable.{buffer_size, scan_error}
use go_prod22_go_project.Store.Journal.{
  JournalStats, no_stats, add_event, on_line, read_lines, read_journal, decode_all, add_decoded,
}

-- The statistics after a list of events.
add_events : List Event → JournalStats → JournalStats
add_events [] s = s
add_events (e ∷ es) s = add_events es (add_event e s)

-- An event at Go's zero time.
abbrev pub has_zero : List Event → Bool
has_zero [] = false
has_zero (e ∷ es) = is_zero e.at || has_zero es

-- An event at this time.
abbrev pub occurs : Time → List Event → Bool
occurs t [] = false
occurs t (e ∷ es) = e.at == t || occurs t es

abbrev pub AreFrom : Time → List Event → Type 0
AreFrom first [] = Unit {0}
AreFrom first (e ∷ es) = (first ≤ℤ e.at) × AreFrom first es

abbrev pub AreUntil : Time → List Event → Type 0
AreUntil last [] = Unit {0}
AreUntil last (e ∷ es) = (e.at ≤ℤ last) × AreUntil last es

-- One event: the statistics cover it and what they covered before, by the times they had or its own.
add_event_lem :
    (e : Event) (s : JournalStats)
    → let s' = add_event e s in
      (e.at ≤ℤ s'.last)
      × (s.last ≤ℤ s'.last)
      × ((s'.last ≡ s.last) ⊎ (s'.last ≡ e.at))
      × ((s'.first ≡ s.first) ⊎ (s'.first ≡ e.at))
unfolding add_event
add_event_lem e s = (ground arith, ground arith, ground arith, ground arith)

-- A first time that is not zero only moves down.
first_lem :
    (e : Event) (s : JournalStats)
    → is_zero e.at ≡ false
    → let s' = add_event e s in
      (is_zero s'.first ≡ false)
      × (s'.first ≤ℤ e.at)
      × (is_zero s.first ≡ false → s'.first ≤ℤ s.first)
unfolding add_event
first_lem e s h = (ground arith, ground arith, (λ k. ground arith))

last_until :
    (es : List Event) (s : JournalStats)
    → (s.last ≤ℤ (add_events es s).last) × AreUntil (add_events es s).last es
unfolding add_events
last_until [] s = (omega arith, tt)
last_until (e ∷ es) s =
    let (high, later, _, _) = add_event_lem e s in
    let (last, until) = last_until es (add_event e s) in (omega arith, (omega arith, until))

times_lem :
    (es : List Event) (s : JournalStats)
    → let s' = add_events es s in
      ((s'.last ≡ s.last) ⊎ (occurs s'.last es ≡ true))
      × ((s'.first ≡ s.first) ⊎ (occurs s'.first es ≡ true))
unfolding add_events
times_lem [] s = (inl refl, inl refl)
times_lem (e ∷ es) s =
    let (_, _, last, first) = add_event_lem e s in
    let (lasts, firsts) = times_lem es (add_event e s) in (ground arith, ground arith)

first_from :
    (es : List Event) (s : JournalStats)
    → has_zero es ≡ false
    → is_zero s.first ≡ false
    → ((add_events es s).first ≤ℤ s.first) × AreFrom (add_events es s).first es
unfolding add_events
first_from [] s h k = (omega arith, tt)
first_from (e ∷ es) s h k =
    let (timed, rest) : (is_zero e.at ≡ false) × (has_zero es ≡ false) = ground arith in
    let (set, low, earlier) = first_lem e s timed in
    let (first, from) = first_from es (add_event e s) rest set in
    let before = earlier k in (omega arith, (omega arith, from))

-- What `First` and `Last` are after a whole journal.
abbrev pub AreSpanned : List Event → JournalStats → Type 0
AreSpanned es s =
    AreUntil s.last es
    × ((s.last ≡ zero_time) ⊎ (occurs s.last es ≡ true))
    × ((es ≡ []) ⊎ (occurs s.first es ≡ true))
    × ((has_zero es ≡ true) ⊎ AreFrom s.first es)

first_set : (e : Event) → (add_event e no_stats).first ≡ e.at
unfolding add_event
first_set e = refl

spanned : (es : List Event) → AreSpanned es (add_events es no_stats)
unfolding add_events
spanned [] = (tt, inl refl, inl refl, inr tt)
spanned (e ∷ es) =
    let s₁ = add_event e no_stats in
    let (_, firsts) = times_lem es s₁ in
    let first : s₁.first ≡ e.at = first_set e in
    (
      (last_until (e ∷ es) no_stats).1,
      (times_lem (e ∷ es) no_stats).0,
      inr (ground arith),
      elim (Bool-cases (has_zero (e ∷ es))) [
        | inl z ↦ inl z
        | inr z ↦
            let (timed, rest) : (is_zero e.at ≡ false) × (has_zero es ≡ false) = ground arith in
            let (set, low, _) = first_lem e no_stats timed in
            let (below, from) = first_from es s₁ rest set in inr (omega arith, from)
      ],
    )

count_lem :
    (k : String) (es : List Event) (s : JournalStats)
    → (amount k (add_events es s).types ≡ amount k s.types + count (λ e. e.type == k) es)
      × (amount k (add_events es s).aggregates
          ≡ amount k s.aggregates + count (λ e. e.aggregate == k) es)
unfolding add_events add_event
count_lem k [] s = (omega arith, omega arith)
count_lem k (e ∷ es) s =
    let (types, aggregates) = count_lem k es (add_event e s) in
    (
      ground (arith, types, amount-add_to e.type k 1 s.types),
      ground (arith, aggregates, amount-add_to e.aggregate k 1 s.aggregates),
    )

module _ (events : Json Event) where
  never : Event → Option Error
  never e = none

  read_lines_lem :
      (ls : List Bytes) (end : Option Error) (s : JournalStats)
      → read_lines events never ls end s ≡ (add_events (decode_all events ls) s, end)
  unfolding read_lines add_events decode_all never
  read_lines_lem [] end s = refl
  read_lines_lem (l ∷ ls) end s = step (events.unmarshal l) (λ s'. read_lines_lem ls end s')
    where
      step :
          (o : Option Event)
          → ((s' : JournalStats)
              → read_lines events never ls end s' ≡ (add_events (decode_all events ls) s', end))
          → on_line events never o s (read_lines events never ls end)
            ≡ (add_events (add_decoded events o (decode_all events ls)) s, end)
      step none rest = rest s
      step (some e) rest = rest (add_event e s)

  -- Where the callback never fails, `ReadJournal` counts, for each type and each aggregate, the
  -- events that the lines before one too long decode to, and its error tells whether there was a
  -- line too long. No such event lies after `Last`, which is the time of one of them or zero.
  -- `First` is the time of one of them, if there is one, and if none lies at Go's zero time, none
  -- lies before `First`.
  pub read_journal_lem :
      (b : Bytes)
      → let (ls, long) = scan buffer_size (lines b) in
        let es = decode_all events ls in
        let (s, error) = read_journal events (λ e. none) b in
        (error ≡ scan_error long)
        × ((k : String) → amount k s.types ≡ count (λ e. e.type == k) es)
        × ((k : String) → amount k s.aggregates ≡ count (λ e. e.aggregate == k) es)
        × AreSpanned es s
  unfolding read_journal never lookup
  read_journal_lem b =
      let (ls, long) = scan buffer_size (lines b) in
      let es = decode_all events ls in
      let e = read_lines_lem ls (scan_error long) no_stats in
      rw e (
        refl,
        (λ k. omega (arith, (count_lem k es no_stats).0)),
        (λ k. omega (arith, (count_lem k es no_stats).1)),
        spanned es,
      )
