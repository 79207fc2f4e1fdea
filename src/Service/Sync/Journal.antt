-- ===== src/Service/Sync/Journal.antt =====
-- Stores that keep a log (the contract of `Store`, internal/store/store.go), and an emitted event on
-- such a store.
use go_prod22_go_project.Prelude.{
  ℕ, String, suc, none, List, [], ◌∷◌, ◌++◌, ◌≡◌, ◌≢◌, refl, ◌∙◌, inl, inr, ◌⊎◌, Option-cases,
}
use go_prod22_go_project.Domain.Errors.{ok, panic}
use go_prod22_go_project.Events.{Event, Payload}
use go_prod22_go_project.Store.{State, empty_state}
use go_prod22_go_project.Service.Base.{
  Ports, Service, modify, append, snapshot, new_id, clock_now, ◌>>=◌,
}
use go_prod22_go_project.Service.Core.{apply, apply_all, emit}
use go_prod22_go_project.Service.Sync.Writes.{event}

-- A store that keeps a log and a snapshot, as long as it is in a good state: an event that the
-- service emits is appended and then kept at the log's end; a snapshot that is taken leaves the log
-- alone, and either replaces the old one or fails and leaves it; a readable store loads both back;
-- and all this leaves the store in a good state.
pub record Journal {S : Type 0} (ports : Ports S) : Type 1 where
  pub log : S → List Event
  pub snap : S → State
  pub Good : S → Type 0
  pub Readable : S → Type 0
  pub append_ok :
      (n m : ℕ) (type aggregate : String) (v : Payload) (st : S)
      → type ≢ ""
      → Good st
      → (ports.store.append (event (ports.ids "evt" n) type aggregate v (ports.clock m)) st).0
        ≡ none
  pub append_good :
      (n m : ℕ) (type aggregate : String) (v : Payload) (st : S)
      → type ≢ ""
      → Good st
      → Good (ports.store.append (event (ports.ids "evt" n) type aggregate v (ports.clock m)) st).1
  pub log_append :
      (n m : ℕ) (type aggregate : String) (v : Payload) (st : S)
      → type ≢ ""
      → Good st
      → log (ports.store.append (event (ports.ids "evt" n) type aggregate v (ports.clock m)) st).1
        ≡ log st ++ event (ports.ids "evt" n) type aggregate v (ports.clock m) ∷ []
  pub snap_append :
      (n m : ℕ) (type aggregate : String) (v : Payload) (st : S)
      → type ≢ ""
      → Good st
      → snap (ports.store.append (event (ports.ids "evt" n) type aggregate v (ports.clock m)) st).1
        ≡ snap st
  pub snapshot_good : (x : State) (st : S) → Good st → Good (ports.store.snapshot x st).1
  pub log_snapshot : (x : State) (st : S) → Good st → log (ports.store.snapshot x st).1 ≡ log st
  pub snap_snapshot :
      (x : State) (st : S)
      → Good st
      → (snap (ports.store.snapshot x st).1 ≡ x) ⊎ (snap (ports.store.snapshot x st).1 ≡ snap st)
  pub load_good : (st : S) → Good st → Readable st → Good (ports.store.load st).1
  pub log_load : (st : S) → Good st → Readable st → (ports.store.load st).0.1 ≡ log st
  pub snap_load : (st : S) → Good st → Readable st → (ports.store.load st).0.0 ≡ snap st
  pub log_kept : (st : S) → Good st → Readable st → log (ports.store.load st).1 ≡ log st
  pub snap_kept : (st : S) → Good st → Readable st → snap (ports.store.load st).1 ≡ snap st

pub apply_all-append :
    (es : List Event) (e : Event) (st : State)
    → apply_all (es ++ e ∷ []) st ≡ apply e (apply_all es st)
unfolding apply_all
apply_all-append [] e st = refl
apply_all-append (x ∷ es) e st = apply_all-append es e (apply x st)

-- The log, replayed from nothing.
abbrev pub replayed : List Event → State
replayed es = apply_all es empty_state

module _ {S : Type 0} (ports : Ports S) where
  abbrev pub stamped : String → String → Payload → Service S → Event
  stamped type aggregate v s =
      event (ports.ids "evt" s.issued) type aggregate v (ports.clock s.reads)

module _ {S : Type 0} (ports : Ports S) (journal : Journal ports) where
  append_lem :
      (type aggregate : String) (v : Payload) (s : Service S)
      → type ≢ ""
      → journal.Good s.st
      → let e = stamped ports type aggregate v s in
        let s₁ : Service S = record s { reads = suc s.reads; issued = suc s.issued } in
        append ports e s₁ ≡ (ok tt, record s₁ { st = (ports.store.append e s.st).1 })
  unfolding append
  append_lem type aggregate v s n g =
      rw (journal.append_ok s.issued s.reads type aggregate v s.st n g) refl

  snapshot_lem :
      (s : Service S)
      → journal.Good s.st
      → ((snapshot ports s).1.state ≡ s.state)
        × (journal.log (snapshot ports s).1.st ≡ journal.log s.st)
        × ((journal.snap (snapshot ports s).1.st ≡ s.state)
            ⊎ (journal.snap (snapshot ports s).1.st ≡ journal.snap s.st))
        × ((snapshot ports s).0 ≢ panic)
        × journal.Good (snapshot ports s).1.st
  unfolding snapshot
  snapshot_lem s g =
      let logged = journal.log_snapshot s.state s.st g in
      let taken = journal.snap_snapshot s.state s.st g in
      let good = journal.snapshot_good s.state s.st g in
      elim (Option-cases (ports.store.snapshot s.state s.st).0) [
        | inl p ↦ rw p (refl, logged, taken, (λ q. cc), good)
        | inr (x, p) ↦ rw p (refl, logged, taken, (λ q. cc), good)
      ]

  -- An emitted event is applied to the state and stands at the end of the log, whether or not the
  -- snapshot succeeds.
  pub emit_lem :
      (type aggregate : String) (v : Payload) (s : Service S)
      → type ≢ ""
      → journal.Good s.st
      → let e = stamped ports type aggregate v s in
        let x = emit ports type aggregate v s in
        (x.1.state ≡ apply e s.state)
        × (journal.log x.1.st ≡ journal.log s.st ++ e ∷ [])
        × ((journal.snap x.1.st ≡ apply e s.state) ⊎ (journal.snap x.1.st ≡ journal.snap s.st))
        × (x.0 ≢ panic)
        × journal.Good x.1.st
  unfolding emit new_id clock_now modify ◌>>=◌
  emit_lem type aggregate v s n g =
      let e = stamped ports type aggregate v s in
      let s₁ : Service S = record s { reads = suc s.reads; issued = suc s.issued } in
      let s₂ : Service S = record s₁ {
        st = (ports.store.append e s.st).1;
        state = apply e s.state;
      } in
      let (kept, logged, taken, returned, good) =
        snapshot_lem s₂ (journal.append_good s.issued s.reads type aggregate v s.st n g) in
      rw (append_lem type aggregate v s n g) (
        kept,
        logged ∙ journal.log_append s.issued s.reads type aggregate v s.st n g,
        rw (journal.snap_append s.issued s.reads type aggregate v s.st n g) at taken,
        returned,
        good,
      )
