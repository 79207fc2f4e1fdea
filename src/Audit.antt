-- ===== src/Audit.antt =====
-- The summary of the audit log (internal/audit/summary.go).
pub mod Counts
use go_prod22_go_project.Prelude.{
  ℕ, suc, ◌+◌, ◌-◌, ℤ, pos, String, Bool, true, false, not, ◌&&◌, ◌==◌, if◌then◌else◌, List, [],
  ◌∷◌, ◌++◌, length, drop, sort_by, string_eq, int_eq, leb_ℤ, pos_part, ltb,
}
use go_prod22_go_project.Prelude.Map.{Map}
use go_prod22_go_project.Prelude.Map.Tally.{add_to, add_all}
use go_prod22_go_project.Prelude.Text.{trim_space}
use go_prod22_go_project.Domain.Model.{Time, is_zero, before, after}
use go_prod22_go_project.Events.{Event, Payload}

pub record Summary : Type 0 where
  pub total : ℕ
  pub since : Time
  pub until : Time
  pub types : Map ℕ
  pub actors : Map ℕ
  pub aggregates : Map ℕ
  pub recent : List Event

abbrev pub is_within : Time → Time → Event → Bool
is_within since until e =
    if not (is_zero since) && before e.at since
    then false
    else not (not (is_zero until) && after e.at until)

abbrev pub by_time : Event → Event → Bool
by_time a b = before a.at b.at

-- The last events, at most `limit` of them.
abbrev pub newest : ℕ → List Event → List Event
newest limit es = if ltb limit (length es) then drop (length es - limit) es else es

abbrev pub limit_of : ℤ → ℕ
limit_of limit = if leb_ℤ limit (pos 0) then 20 else pos_part limit

-- The bytes of an event's data as a text.
module _ (text_of : Payload → String) where
  abbrev pub actor : Event → String
  actor e = trim_space (text_of e.payload)

  unfoldable pub counted : Event → Summary → Summary
  unfolding add_to trim_space
  counted e out = record out {
    total = suc out.total;
    types = add_to e.type 1 out.types;
    aggregates = add_to e.aggregate 1 out.aggregates;
    actors = if actor e == "" then out.actors else add_to (actor e) 1 out.actors;
    recent = out.recent ++ e ∷ [];
  }

  unfoldable pub collect : Time → Time → List Event → Summary → Summary
  unfolding counted
  collect since until [] out = out
  collect since until (e ∷ es) out =
      let added = collect since until es (counted e out) in
      let skipped = collect since until es out in if is_within since until e then added else skipped

  abbrev pub no_events : Time → Time → Summary
  no_events since until = record {
    total = 0;
    since = since;
    until = until;
    types = [];
    actors = [];
    aggregates = [];
    recent = [];
  }

  unfoldable pub build : List Event → Time → Time → ℤ → Summary
  unfolding collect
  build es since until limit =
      let out = collect since until es (no_events since until) in
      record out { recent = newest (limit_of limit) (sort_by by_time out.recent) }

abbrev pub earliest : Time → Time → Time
earliest a b = if is_zero a then b else if not (is_zero b) && before b a then b else a

unfoldable pub merge : Summary → Summary → Summary
unfolding add_all
merge a b = record {
  total = a.total + b.total;
  since = earliest a.since b.since;
  until = if after b.until a.until then b.until else a.until;
  types = add_all b.types a.types;
  actors = add_all b.actors a.actors;
  aggregates = add_all b.aggregates a.aggregates;
  recent = newest 20 (sort_by by_time (a.recent ++ b.recent));
}
