-- ===== src/Audit/Counts.antt =====
-- What a summary counts.
use go_prod22_go_project.Prelude.{
  ℕ, suc, ◌+◌, ℤ, String, Bool, true, false, ◌==◌, ◌≡◌, refl, ◌∙◌, if◌then◌else◌, List, [], ◌∷◌,
  ◌++◌, count, string_eq, arith, Bool-cases, inl, inr,
}
use go_prod22_go_project.Prelude.Map.{Map, lookup}
use go_prod22_go_project.Prelude.Map.Keys.{Unique}
use go_prod22_go_project.Prelude.Map.Tally.{
  amount, add_to, amount-add_to, add_to-Unique, amount-add_all,
}
use go_prod22_go_project.Domain.Model.{Time}
use go_prod22_go_project.Events.{Event, Payload}
use go_prod22_go_project.Audit.{
  Summary, is_within, actor, counted, collect, no_events, build, merge,
}

count-append :
    {A : Type 0} (p : A → Bool) (xs ys : List A) → count p (xs ++ ys) ≡ count p xs + count p ys
count-append p [] ys = omega arith
count-append p (x ∷ xs) ys = ground (arith, count-append p xs ys)

module _ (text_of : Payload → String) (since until : Time) where
  -- The events that count under a type, an aggregate, an actor.
  abbrev pub of_type : String → Event → Bool
  of_type k e = if is_within since until e then e.type == k else false

  abbrev pub of_aggregate : String → Event → Bool
  of_aggregate k e = if is_within since until e then e.aggregate == k else false

  abbrev pub of_actor : String → Event → Bool
  of_actor k e =
      if is_within since until e
      then if actor text_of e == "" then false else actor text_of e == k
      else false

  -- The counts of a summary are those of the events.
  record Counts (es : List Event) (start out : Summary) : Type 0 where
    total : out.total ≡ start.total + count (is_within since until) es
    types : (k : String) → amount k out.types ≡ amount k start.types + count (of_type k) es
    aggregates :
        (k : String)
        → amount k out.aggregates ≡ amount k start.aggregates + count (of_aggregate k) es
    actors : (k : String) → amount k out.actors ≡ amount k start.actors + count (of_actor k) es
    unique_types : Unique start.types → Unique out.types
    unique_aggregates : Unique start.aggregates → Unique out.aggregates
    unique_actors : Unique start.actors → Unique out.actors

  skipped-Counts :
      (e : Event) (es : List Event) (start out : Summary)
      → is_within since until e ≡ false
      → Counts es start out
      → Counts (e ∷ es) start out
  skipped-Counts e es start out outside rest = record {
    total = rw outside rest.total;
    types = λ k. rw outside (rest.types k);
    aggregates = λ k. rw outside (rest.aggregates k);
    actors = λ k. rw outside (rest.actors k);
    unique_types = rest.unique_types;
    unique_aggregates = rest.unique_aggregates;
    unique_actors = rest.unique_actors;
  }

  actor_added :
      (e : Event) (k : String) (m : Map ℕ) (n : ℕ)
      → is_within since until e ≡ true
      → amount k (if actor text_of e == "" then m else add_to (actor text_of e) 1 m) + n
        ≡ amount k m + (if of_actor k e then suc n else n)
  actor_added e k m n within = elim (Bool-cases (actor text_of e == "")) [
    | inl nobody ↦ rw (within, nobody) refl
    | inr somebody ↦ rw (within, somebody) (ground (arith, amount-add_to (actor text_of e) k 1 m))
  ]

  actor-Unique :
      (e : Event) (m : Map ℕ)
      → Unique m
      → Unique (if actor text_of e == "" then m else add_to (actor text_of e) 1 m)
  actor-Unique e m h = elim (Bool-cases (actor text_of e == "")) [
    | inl nobody ↦ rw nobody h
    | inr somebody ↦ rw somebody (add_to-Unique (actor text_of e) 1 m h)
  ]

  added-Counts :
      (e : Event) (es : List Event) (start out : Summary)
      → is_within since until e ≡ true
      → Counts es (counted text_of e start) out
      → Counts (e ∷ es) start out
  unfolding counted
  added-Counts e es start out within rest = record {
    total = rw within (omega (arith, rest.total));
    types = λ k. rw within (ground (arith, rest.types k, amount-add_to e.type k 1 start.types));
    aggregates = λ k.
        rw within
          (ground (arith, rest.aggregates k, amount-add_to e.aggregate k 1 start.aggregates));
    actors = λ k. rest.actors k ∙ actor_added e k start.actors (count (of_actor k) es) within;
    unique_types = λ h. rest.unique_types (add_to-Unique e.type 1 start.types h);
    unique_aggregates =
        λ h. rest.unique_aggregates (add_to-Unique e.aggregate 1 start.aggregates h);
    unique_actors = λ h. rest.unique_actors (actor-Unique e start.actors h);
  }

  collect-Counts :
      (es : List Event) (out : Summary) → Counts es out (collect text_of since until es out)
  unfolding collect
  collect-Counts [] out = record {
    total = omega arith;
    types = λ k. omega arith;
    aggregates = λ k. omega arith;
    actors = λ k. omega arith;
    unique_types = λ h. h;
    unique_aggregates = λ h. h;
    unique_actors = λ h. h;
  }
  collect-Counts (e ∷ es) out = elim (Bool-cases (is_within since until e)) [
    | inl within ↦
        let kept = collect-Counts es (counted text_of e out) in
        rw within (
          added-Counts e es out (collect text_of since until es (counted text_of e out)) within
            kept)
    | inr outside ↦ rw outside (
        skipped-Counts e es out (collect text_of since until es out) outside
          (collect-Counts es out))
  ]

  -- Merging the summaries of two logs gives the counts of the summary of the two together: in all, and
  -- for each type, aggregate and actor. (Both are made for the same window of time, and the lists of recent events
  -- are not compared.)
  pub merge-build :
      (xs ys : List Event) (limit : ℤ)
      → let parts =
          merge (build text_of xs since until limit) (build text_of ys since until limit) in
        let whole = build text_of (xs ++ ys) since until limit in
        (parts.total ≡ whole.total)
        × ((k : String) → amount k parts.types ≡ amount k whole.types)
        × ((k : String) → amount k parts.aggregates ≡ amount k whole.aggregates)
        × ((k : String) → amount k parts.actors ≡ amount k whole.actors)
  unfolding merge build lookup
  merge-build xs ys limit =
      let start = no_events text_of since until in
      let a = collect-Counts xs start in
      let b = collect-Counts ys start in
      let c = collect-Counts (xs ++ ys) start in
      let first = collect text_of since until xs start in
      let second = collect text_of since until ys start in
      (
        omega (arith, a.total, b.total, c.total, count-append (is_within since until) xs ys),
        λ k. omega (
          arith,
          amount-add_all k second.types first.types (b.unique_types tt),
          a.types k,
          b.types k,
          c.types k,
          count-append (of_type k) xs ys,
        ),
        λ k. omega (
          arith,
          amount-add_all k second.aggregates first.aggregates (b.unique_aggregates tt),
          a.aggregates k,
          b.aggregates k,
          c.aggregates k,
          count-append (of_aggregate k) xs ys,
        ),
        λ k. omega (
          arith,
          amount-add_all k second.actors first.actors (b.unique_actors tt),
          a.actors k,
          b.actors k,
          c.actors k,
          count-append (of_actor k) xs ys,
        ),
      )
