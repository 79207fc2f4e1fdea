-- ===== src/Service/Stored.antt =====
-- What the writes of `put` and of `reconcile` leave in the maps, whatever the store does
-- (internal/service/service.go, reconcile.go).
use go_prod22_go_project.Prelude.{
  suc, String, some, ◌==◌, ◌≡◌, refl, ◌∙◌, ap, inl, inr, Option-cases, arith, string_eq, eq_iff,
  if◌then◌else◌,
}
use go_prod22_go_project.Prelude.Map.{
  Map, lookup, insert, replace, lookup-insert, lookup-replace_ne, lookup-replace_self,
  insert-replace,
}
use go_prod22_go_project.Domain.Model.{Release, Task}
use go_prod22_go_project.Events.{task_data, release_data}
use go_prod22_go_project.Service.Base.{
  Ports, Service, pure, ignore, gets, get_release, modify, write_task, write_release, or_crash,
  append, snapshot, new_id, clock_now, ◌>>=◌,
}
use go_prod22_go_project.Service.Core.{
  apply, project, emit, commit_task, save_task, reconcile, reconcile_found, save_release,
}
use go_prod22_go_project.Service.Inversion.{next_event}

lookup-replace :
    {V : Type 0} (k j : String) (v old : V) (m : Map V)
    → lookup k m ≡ some old
    → lookup j (replace k v m) ≡ (if k == j then some v else lookup j m)
lookup-replace k j v old m h =
    ground (arith, eq_iff k j, lookup-replace_self k v old m h, lookup-replace_ne k j v m)

module _ {S : Type 0} (ports : Ports S) where
  snapshot_state : (s : Service S) → (snapshot ports s).1.state ≡ s.state
  unfolding snapshot
  snapshot_state s = elim (Option-cases (ports.store.snapshot s.state s.st).0) [
    | inl p ↦ rw p refl
    | inr (x, p) ↦ rw p refl
  ]

  -- A task that is saved where its map holds one stands there, and nothing else has changed.
  pub save_task_tasks :
      (key aggregate j : String) (t old : Task) (s : Service S)
      → t.id ≡ key
      → lookup key s.state.tasks ≡ some old
      → lookup j (save_task ports key aggregate t s).1.state.tasks
        ≡ (if key == j then some t else lookup j s.state.tasks)
  unfolding save_task commit_task write_task modify or_crash emit new_id clock_now append ◌>>=◌
      apply project
  save_task_tasks key aggregate j t old s named found =
      let e = next_event ports "task.updated" aggregate (task_data t) s in
      elim (Option-cases (ports.store.append e s.st).0) [
        | inr (x, p) ↦ rw p (lookup-replace key j t old s.state.tasks found)
        | inl p ↦ rw p (
            ap (λ st. lookup j st.tasks) (snapshot_state _)
            ∙ ap (λ k. lookup j (insert k t (replace key t s.state.tasks))) named
            ∙ ap (lookup j) (insert-replace key t t s.state.tasks)
            ∙ lookup-insert key j t s.state.tasks)
      ]

  save_release_tasks :
      (key aggregate : String) (r : Release) (s : Service S)
      → (save_release ports key aggregate r s).1.state.tasks ≡ s.state.tasks
  unfolding save_release write_release modify emit new_id clock_now append ◌>>=◌ apply project
  save_release_tasks key aggregate r s =
      let e = next_event ports "release.updated" aggregate (release_data r) s in
      elim (Option-cases (ports.store.append e s.st).0) [
        | inr (x, p) ↦ rw p refl
        | inl p ↦ rw p (ap (λ st. st.tasks) (snapshot_state _))
      ]

  pub reconcile_tasks :
      (id : String) (s : Service S) → (reconcile ports id s).1.state.tasks ≡ s.state.tasks
  unfolding reconcile reconcile_found get_release gets clock_now ignore pure ◌>>=◌
  reconcile_tasks id s = elim (Option-cases (lookup id s.state.releases)) [
    | inl p ↦ rw p refl
    | inr (r, p) ↦ rw p (save_release_tasks id r.id _ (record s { reads = suc s.reads }))
  ]
