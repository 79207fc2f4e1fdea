-- ===== src/Service/Inversion.antt =====
-- What a command that returned has done, from its last step back to its first.
use go_prod22_go_project.Prelude.{
  suc, String, Option, none, some, Bool, true, false, ◌≡◌, refl, ◌∙◌, ap, ◌⊎◌, inl, inr,
  Option-cases, arith,
}
use go_prod22_go_project.Prelude.Map.{lookup}
use go_prod22_go_project.Domain.Model.{Release, Device}
use go_prod22_go_project.Domain.Errors.{Error, Result, ok, err, panic}
use go_prod22_go_project.Events.{Event, Payload}
use go_prod22_go_project.Service.Base.{
  Ports, Service, Cmd, guard, gets, or_raise, find_release, find_device, get_release, get_device,
  clock_now, new_id, append, snapshot, modify, continue, ◌>>=◌,
}
use go_prod22_go_project.Service.Core.{apply, emit}

module _ {S A C : Type 0} where
  pub continue_ok :
      (x : Result A × Service S) (f : A → Cmd S C) {c : C}
      → (continue x.0 f x.1).0 ≡ ok c
      → (a : A) × (x.0 ≡ ok a) × (continue x.0 f x.1 ≡ f a x.1)
  continue_ok (ok a, s) f h = (a, refl, refl)
  continue_ok (err e, s) f h = cc
  continue_ok (panic, s) f h = cc

  -- A block that returned went through its first command, and is the rest of the block after that.
  pub bind_ok :
      (m : Cmd S A) (f : A → Cmd S C) (s : Service S) {c : C}
      → ((m >>= f) s).0 ≡ ok c
      → (a : A) × ((m s).0 ≡ ok a) × ((m >>= f) s ≡ f a (m s).1)
  unfolding ◌>>=◌
  bind_ok m f s h = continue_ok (m s) f h

module _ {S : Type 0} where
  pub guard_ok :
      (b : Bool) (e : Error) (s : Service S) {u : Unit {0}}
      → (guard b e s).0 ≡ ok u
      → (b ≡ true) × ((guard b e s).1 ≡ s)
  unfolding guard
  guard_ok true e s h = (refl, refl)
  guard_ok false e s h = cc

  pub or_raise_ok :
      {A : Type 0} (o : Option A) (e : Error) (s : Service S) {a : A}
      → (or_raise o e s).0 ≡ ok a
      → (o ≡ some a) × ((or_raise o e s).1 ≡ s)
  unfolding or_raise
  or_raise_ok none e s h = cc
  or_raise_ok (some b) e s h = (ground arith, refl)

  pub find_release_ok :
      (id : String) (e : Error) (s : Service S) {r : Release}
      → (find_release id e s).0 ≡ ok r
      → (lookup id s.state.releases ≡ some r) × ((find_release id e s).1 ≡ s)
  unfolding find_release get_release gets ◌>>=◌
  find_release_ok id e s h = or_raise_ok (lookup id s.state.releases) e s h

  pub find_device_ok :
      (id : String) (e : Error) (s : Service S) {d : Device}
      → (find_device id e s).0 ≡ ok d
      → (lookup id s.state.devices ≡ some d) × ((find_device id e s).1 ≡ s)
  unfolding find_device get_device gets ◌>>=◌
  find_device_ok id e s h = or_raise_ok (lookup id s.state.devices) e s h

module _ {S : Type 0} (ports : Ports S) where
  abbrev pub next_event : String → String → Payload → Service S → Event
  next_event type aggregate v s = record {
    id = ports.ids "evt" s.issued;
    type = type;
    aggregate = aggregate;
    payload = v;
    at = ports.clock s.reads;
  }

  append_ok :
      (e : Event) (s : Service S)
      → ((append ports e s).0 ≡ ok tt) ⊎ ((x : Error) × ((append ports e s).0 ≡ err x))
  unfolding append
  append_ok e s = elim (Option-cases (ports.store.append e s.st).0) [
    | inl p ↦ inl (rw p refl)
    | inr (x, p) ↦ inr (x, rw p refl)
  ]

  append_state : (e : Event) (s : Service S) → (append ports e s).1.state ≡ s.state
  unfolding append
  append_state e s = elim (Option-cases (ports.store.append e s.st).0) [
    | inl p ↦ rw p refl
    | inr (x, p) ↦ rw p refl
  ]

  snapshot_state : (s : Service S) → (snapshot ports s).1.state ≡ s.state
  unfolding snapshot
  snapshot_state s = elim (Option-cases (ports.store.snapshot s.state s.st).0) [
    | inl p ↦ rw p refl
    | inr (x, p) ↦ rw p refl
  ]

  -- Where `emit` returned, its event was applied.
  pub emit_ok :
      (type aggregate : String) (v : Payload) (s : Service S) {u : Unit {0}}
      → (emit ports type aggregate v s).0 ≡ ok u
      → (emit ports type aggregate v s).1.state ≡ apply (next_event type aggregate v s) s.state
  unfolding emit new_id clock_now modify ◌>>=◌
  emit_ok type aggregate v s h =
      let e = next_event type aggregate v s in
      let s₁ : Service S = record s { reads = suc s.reads; issued = suc s.issued } in
      elim (append_ok e s₁) [
        | inl p ↦ rw p (snapshot_state _ ∙ ap (apply e) (append_state e s₁))
        | inr (x, p) ↦ cc (rw p at h)
      ]
