-- ===== src/Service/Sync/Replay.antt =====
-- A replay over a snapshot: each event sets a key or leaves it alone, whatever the state, so the log
-- over a later state of its own gives that state again.
use go_prod22_go_project.Prelude.{
  String, Option, some, Bool, true, false, List, [], ◌∷◌, ◌≡◌, refl, sym, ◌∙◌, ap, ◌==◌, ◌⊎◌, inl,
  inr, Bool-cases, if◌then◌else◌, string_eq,
}
use go_prod22_go_project.Prelude.Map.{Map, lookup, insert, lookup-insert}
use go_prod22_go_project.Events.{Event, Payload, release_data, device_data, task_data}
use go_prod22_go_project.Store.{State, empty_state}
use go_prod22_go_project.Service.Core.{
  apply, apply_all, project, project_cases, record_audit, put_release, put_device, put_task,
}
use go_prod22_go_project.Service.Sync.View.{SameView, apply-SameView}

-- A change of the state leaves a key of a map alone, or sets it to one value.
abbrev Sets : {V : Type 0} → (State → Map V) → String → (State → State) → Type 0
Sets {V} part k f =
    ((st : State) → lookup k (part (f st)) ≡ lookup k (part st))
    ⊎ ((c : Option V) × ((st : State) → lookup k (part (f st)) ≡ c))

module _ {V : Type 0} (part : State → Map V) (k : String) where
  Sets-id : Sets part k (λ st. st)
  Sets-id = inl (λ st. refl)

  Sets-if :
      (b : Bool) (f g : State → State)
      → Sets part k f
      → Sets part k g
      → Sets part k (λ st. if b then f st else g st)
  Sets-if true f g hf hg = hf
  Sets-if false f g hf hg = hg

  Sets-compose :
      (f g : State → State) → Sets part k f → Sets part k g → Sets part k (λ st. g (f st))
  Sets-compose f g (inl p) (inl q) = inl (λ st. q (f st) ∙ p st)
  Sets-compose f g (inr (c, p)) (inl q) = inr (c, (λ st. q (f st) ∙ p st))
  Sets-compose f g hf (inr (c, q)) = inr (c, (λ st. q (f st)))

  Sets-insert :
      (f : State → State) (j : String) (v : V)
      → ((st : State) → part (f st) ≡ insert j v (part st))
      → Sets part k f
  Sets-insert f j v e = elim (Bool-cases (j == k)) [
    | inl hit ↦ inr (some v, (λ st. rw (e st, lookup-insert j k v (part st), hit) refl))
    | inr miss ↦ inl (λ st. rw (e st, lookup-insert j k v (part st), miss) refl)
  ]

  module _ (releases : (v : Payload) → Sets part k (put_release v))
      (devices : (v : Payload) → Sets part k (put_device v))
      (tasks : (v : Payload) → Sets part k (put_task v))
      (audit : (xs : List Event) (st : State) → part (record st { audit = xs }) ≡ part st) where
    apply-Sets : (e : Event) → Sets part k (apply e)
    unfolding apply project
    apply-Sets e =
        Sets-compose (λ st. record st { audit = record_audit e st.audit }) _
          (inl (λ st. ap (lookup k) (audit _ st)))
          (Sets-if (e.type == "release.created") _ _ (releases e.payload) (
            Sets-if (e.type == "device.registered") _ _ (devices e.payload) (
              Sets-if (e.type == "task.created") _ _ (tasks e.payload) (
                Sets-if (e.type == "task.updated") _ _ (tasks e.payload)
                  (Sets-if (e.type == "release.updated") _ _ (releases e.payload) Sets-id)))))

    apply_all-Sets : (es : List Event) → Sets part k (apply_all es)
    unfolding apply_all
    apply_all-Sets [] = Sets-id
    apply_all-Sets (e ∷ es) =
        Sets-compose (apply e) (apply_all es) (apply-Sets e) (apply_all-Sets es)

    apply_all-again :
        (es : List Event) (st x : State)
        → part x ≡ part (apply_all es st)
        → lookup k (part (apply_all es x)) ≡ lookup k (part (apply_all es st))
    apply_all-again es st x e = elim (apply_all-Sets es) [
      | inl p ↦ p x ∙ ap (lookup k) e
      | inr (c, p) ↦ p x ∙ sym (p st)
    ]

tasks_again :
    (k : String) (es : List Event) (st x : State)
    → x.tasks ≡ (apply_all es st).tasks
    → lookup k (apply_all es x).tasks ≡ lookup k (apply_all es st).tasks
tasks_again k = apply_all-again (λ st. st.tasks) k releases devices tasks (λ xs st. refl)
  where
    releases : (v : Payload) → Sets (λ st. st.tasks) k (put_release v)
    releases (release_data r) = inl (λ st. refl)
    releases _ = inl (λ st. refl)

    devices : (v : Payload) → Sets (λ st. st.tasks) k (put_device v)
    devices (device_data d) = inl (λ st. refl)
    devices _ = inl (λ st. refl)

    tasks : (v : Payload) → Sets (λ st. st.tasks) k (put_task v)
    tasks (task_data t) =
        Sets-insert (λ st. st.tasks) k (put_task (task_data t)) t.id t (λ st. refl)
    tasks _ = inl (λ st. refl)

releases_again :
    (k : String) (es : List Event) (st x : State)
    → x.releases ≡ (apply_all es st).releases
    → lookup k (apply_all es x).releases ≡ lookup k (apply_all es st).releases
releases_again k = apply_all-again (λ st. st.releases) k releases devices tasks (λ xs st. refl)
  where
    releases : (v : Payload) → Sets (λ st. st.releases) k (put_release v)
    releases (release_data r) =
        Sets-insert (λ st. st.releases) k (put_release (release_data r)) r.id r (λ st. refl)
    releases _ = inl (λ st. refl)

    devices : (v : Payload) → Sets (λ st. st.releases) k (put_device v)
    devices (device_data d) = inl (λ st. refl)
    devices _ = inl (λ st. refl)

    tasks : (v : Payload) → Sets (λ st. st.releases) k (put_task v)
    tasks (task_data t) = inl (λ st. refl)
    tasks _ = inl (λ st. refl)

devices_again :
    (k : String) (es : List Event) (st x : State)
    → x.devices ≡ (apply_all es st).devices
    → lookup k (apply_all es x).devices ≡ lookup k (apply_all es st).devices
devices_again k = apply_all-again (λ st. st.devices) k releases devices tasks (λ xs st. refl)
  where
    releases : (v : Payload) → Sets (λ st. st.devices) k (put_release v)
    releases (release_data r) = inl (λ st. refl)
    releases _ = inl (λ st. refl)

    devices : (v : Payload) → Sets (λ st. st.devices) k (put_device v)
    devices (device_data d) =
        Sets-insert (λ st. st.devices) k (put_device (device_data d)) d.id d (λ st. refl)
    devices _ = inl (λ st. refl)

    tasks : (v : Payload) → Sets (λ st. st.devices) k (put_task v)
    tasks (task_data t) = inl (λ st. refl)
    tasks _ = inl (λ st. refl)

put-audit : (e : Event) (st : State) → (project e st).audit ≡ st.audit
put-audit e st =
    project_cases (λ x. x.audit ≡ st.audit) e st (releases e.payload) (devices e.payload)
      (tasks e.payload) refl
  where
    releases : (v : Payload) → (put_release v st).audit ≡ st.audit
    releases (release_data r) = refl
    releases _ = refl

    devices : (v : Payload) → (put_device v st).audit ≡ st.audit
    devices (device_data d) = refl
    devices _ = refl

    tasks : (v : Payload) → (put_task v st).audit ≡ st.audit
    tasks (task_data t) = refl
    tasks _ = refl

apply_all-audit :
    (es : List Event) (a b : State)
    → a.audit ≡ b.audit
    → (apply_all es a).audit ≡ (apply_all es b).audit
unfolding apply_all apply
apply_all-audit [] a b h = h
apply_all-audit (e ∷ es) a b h =
    apply_all-audit es _ _ (put-audit e _ ∙ ap (record_audit e) h ∙ sym (put-audit e _))

-- A log over a snapshot, its audit dropped, as `Recover` replays it.
abbrev pub overlaid : List Event → State → State
overlaid es snap = apply_all es (record snap { audit = [] })

pub apply_all-SameView :
    (dirty : String → Bool) (es : List Event) (a b : State)
    → SameView dirty a b
    → SameView dirty (apply_all es a) (apply_all es b)
unfolding apply_all
apply_all-SameView dirty [] a b h = h
apply_all-SameView dirty (e ∷ es) a b h =
    apply_all-SameView dirty es _ _ (apply-SameView dirty e a b h)

-- Replaying a log over a state that looks like its own replay gives that replay again: no record is
-- lost, made up or set back.
pub overlaid-SameView :
    (dirty : String → Bool) (es : List Event) (snap : State)
    → SameView dirty (apply_all es empty_state) snap
    → SameView dirty (overlaid es snap) (apply_all es empty_state)
overlaid-SameView dirty es snap h =
    let own : State = record (apply_all es empty_state) { audit = [] } in
    let near : SameView dirty (record snap { audit = [] }) own = record {
      tasks = λ k. sym (h.tasks k);
      devices = λ k. sym (h.devices k);
      releases = λ k d. sym (h.releases k d);
      audit = refl;
    } in
    let moved = apply_all-SameView dirty es _ _ near in
    record {
      tasks = λ k. moved.tasks k ∙ tasks_again k es empty_state own refl;
      devices = λ k. moved.devices k ∙ devices_again k es empty_state own refl;
      releases = λ k d. moved.releases k d ∙ releases_again k es empty_state own refl;
      audit = moved.audit ∙ apply_all-audit es own empty_state refl;
    }
