-- ===== src/Service/Reaping/Loop.antt =====
-- The loop of `ReapExpiredDetailed` over the tasks (internal/service/rollback.go).
use go_prod22_go_project.Prelude.{
  eq_iff, string_eq, int_eq, ◌+◌, String, Option, none, some, true, ◌==◌, ◌∙◌, ◌≡◌, refl, ap, [],
  ◌∷◌, arith, inl, inr, Option-cases, Bool-cases, count, if◌then◌else◌,
}
use go_prod22_go_project.Prelude.Map.{Map, lookup, values}
use go_prod22_go_project.Domain.Model.{Release, Task, Time}
use go_prod22_go_project.Domain.Status.{task_status_eq}
use go_prod22_go_project.Domain.Errors.{ok}
use go_prod22_go_project.Events.{Payload, task_data, release_data}
use go_prod22_go_project.Service.Base.{
  Ports, Service, pure, ignore, gets, get_release, modify, write_task, write_release, or_crash,
  append, snapshot, new_id, clock_now, swallow, ◌>>=◌,
}
use go_prod22_go_project.Service.Core.{apply, project, emit, commit_task, save_task, save_release}
use go_prod22_go_project.Service.Inversion.{next_event}
use go_prod22_go_project.Service.Stored.{save_task_tasks}
use go_prod22_go_project.Prelude.Map.Keys.{Keyed, Unique}
use go_prod22_go_project.Service.Rollback.{
  ReapResult, is_expired, reaped, tallied, reap_one, reap_tasks,
}
use go_prod22_go_project.Service.Reaping.Outcomes.{
  fails, requeues, is_failing, is_requeued, freed, outcome, landed, tallied_lem, one_more,
  landed_met, landed_skip, reaped_id, rest_found, self_found,
}

module _ {S : Type 0} (ports : Ports S) where
  snapshot_swallowed :
      (s : Service S)
      → (swallow (snapshot ports s).0 ≡ ok tt) × ((snapshot ports s).1.state ≡ s.state)
  unfolding snapshot
  snapshot_swallowed s = elim (Option-cases (ports.store.snapshot s.state s.st).0) [
    | inl p ↦ rw p (refl, refl)
    | inr (x, p) ↦ rw p (refl, refl)
  ]

  emit_swallowed :
      (type aggregate : String) (v : Payload) (s : Service S)
      → swallow (emit ports type aggregate v s).0 ≡ ok tt
  unfolding emit modify new_id clock_now append ◌>>=◌
  emit_swallowed type aggregate v s =
      elim (Option-cases (ports.store.append (next_event ports type aggregate v s) s.st).0) [
        | inl p ↦ rw p (snapshot_swallowed _).0
        | inr (x, p) ↦ rw p refl
      ]

  save_task_lem :
      (key aggregate : String) (t : Task) (s : Service S)
      → (swallow (save_task ports key aggregate t s).0 ≡ ok tt)
        × ((save_task ports key aggregate t s).1.state.releases ≡ s.state.releases)
  unfolding save_task commit_task write_task modify or_crash emit new_id clock_now append ◌>>=◌
      apply project
  save_task_lem key aggregate t s =
      let e = next_event ports "task.updated" aggregate (task_data t) s in
      elim (Option-cases (ports.store.append e s.st).0) [
        | inl p ↦ rw p ((snapshot_swallowed _).0, ap (λ st. st.releases) (snapshot_swallowed _).1)
        | inr (x, p) ↦ rw p (refl, refl)
      ]

  pub save_release_swallowed :
      (key aggregate : String) (r : Release) (s : Service S)
      → swallow (save_release ports key aggregate r s).0 ≡ ok tt
  unfolding save_release write_release modify ◌>>=◌
  save_release_swallowed key aggregate r s =
      emit_swallowed "release.updated" aggregate (release_data r) _

  reap_one_lem :
      (now : Time) (key : String) (t : Task) (owner : Option Release) (out : ReapResult)
      (s : Service S)
      → (next : ReapResult) × ((reap_one ports now key t owner out s).0 ≡ ok next)
        × (next.failed ≡ out.failed + (if fails owner t then 1 else 0))
        × (next.requeued ≡ out.requeued + (if requeues owner t then 1 else 0))
        × ((reap_one ports now key t owner out s).1.state.releases ≡ s.state.releases)
  unfolding reap_one pure ignore ◌>>=◌
  reap_one_lem now key t none out s = (out, refl, omega arith, omega arith, refl)
  reap_one_lem now key t (some r) out s =
      let u = reaped now r t in
      let (failed, requeued) = tallied_lem r t out in
      rw ((save_task_lem key u.id u s).0, (save_task_lem key u.id u s).1)
        (tallied r t out, refl, failed, requeued, refl)

  -- The loop goes on after a task whose lease ran out, with its counts and the same releases.
  reap_step :
      (now : Time) (key : String) (t : Task) (rest : Map Task) (out : ReapResult) (s : Service S)
      → is_expired now t ≡ true
      → let owner = lookup t.release_id s.state.releases in
        let s' = (reap_one ports now key t owner out s).1 in
        (out' : ReapResult) × (reap_tasks ports now ((key, t) ∷ rest) out s
          ≡ reap_tasks ports now rest out' s')
        × (out'.failed ≡ out.failed + (if fails owner t then 1 else 0))
        × (out'.requeued ≡ out.requeued + (if requeues owner t then 1 else 0))
        × (s'.state.releases ≡ s.state.releases)
  unfolding reap_tasks get_release gets ◌>>=◌
  reap_step now key t rest out s e =
      let (out', done, failed, requeued, kept) =
        reap_one_lem now key t (lookup t.release_id s.state.releases) out s in
      (out', rw (e, done) refl, failed, requeued, kept)

  pub reap_tasks_lem :
      (now : Time) (entries : Map Task) (out : ReapResult) (s : Service S)
      → (next : ReapResult) × ((reap_tasks ports now entries out s).0 ≡ ok next)
        × (next.failed ≡ out.failed + count (is_failing s.state.releases now) (values entries))
        × (next.requeued ≡ out.requeued + count (is_requeued s.state.releases now) (values entries))
  unfolding reap_tasks pure
  reap_tasks_lem now [] out s = (out, refl, omega arith, omega arith)
  reap_tasks_lem now ((key, t) ∷ rest) out s = elim (Bool-cases (is_expired now t)) [
    | inr e ↦ rw e (reap_tasks_lem now rest out s)
    | inl e ↦
        let owner = lookup t.release_id s.state.releases in
        let (out', step, failed, requeued, kept) = reap_step now key t rest out s e in
        let (next, rests, all_failed, all_requeued) =
          reap_tasks_lem now rest out' (reap_one ports now key t owner out s).1 in
        (
          next,
          ap (λ x. x.0) step ∙ rests,
          rw e (
              one_more (fails owner t) next.failed out'.failed out.failed _ failed
                (rw kept at all_failed)),
          rw e (
              one_more (requeues owner t) next.requeued out'.requeued out.requeued _ requeued
                (rw kept at all_requeued)),
        )
  ]

  -- A task that the loop meets is left under its key as its outcome, and no other one is written.
  reap_one_tasks :
      (now : Time) (key j : String) (t : Task) (owner : Option Release) (out : ReapResult)
      (s : Service S)
      → t.id ≡ key
      → lookup key s.state.tasks ≡ some t
      → is_expired now t ≡ true
      → lookup j (reap_one ports now key t owner out s).1.state.tasks
        ≡ (if key == j then some (freed owner now t) else lookup j s.state.tasks)
  unfolding reap_one pure ignore ◌>>=◌
  reap_one_tasks now key j t none out s named found e = ground (arith, eq_iff key j)
  reap_one_tasks now key j t (some r) out s named found e =
      let u = reaped now r t in
      rw ((save_task_lem key u.id u s).0, e)
        (save_task_tasks ports key u.id j u t s (reaped_id now r t ∙ named) found)

  pub reap_tasks_tasks :
      (now : Time) (j : String) (entries : Map Task) (out : ReapResult) (s : Service S)
      → Keyed (λ t. t.id) entries
      → Unique entries
      → ((k : String) (t : Task) → lookup k entries ≡ some t → lookup k s.state.tasks ≡ some t)
      → lookup j (reap_tasks ports now entries out s).1.state.tasks
        ≡ landed s.state.releases now (lookup j entries) (lookup j s.state.tasks)
  unfolding reap_tasks pure lookup
  reap_tasks_tasks now j [] out s keyed unique held = refl
  reap_tasks_tasks now j ((key, t) ∷ rest) out s keyed unique held =
      elim (Bool-cases (is_expired now t)) [
        | inr e ↦ rw e (
            reap_tasks_tasks now j rest out s keyed.1 unique.1
              (λ k u found. held k u (rest_found k key t u rest unique.0 found).1)
            ∙ landed_skip s.state.releases now key j t rest s.state.tasks e unique.0
                (held key t (self_found key t rest)))
        | inl e ↦
            let owner = lookup t.release_id s.state.releases in
            let s' = (reap_one ports now key t owner out s).1 in
            let (out', step, _, _, kept) = reap_step now key t rest out s e in
            let one : (i : String)
                → lookup i s'.state.tasks ≡ (
                    if key == i
                    then some (outcome s.state.releases now t)
                    else lookup i s.state.tasks) =
              λ i.
                reap_one_tasks now key i t owner out s keyed.0 (held key t (self_found key t rest))
                  e in
            let rests = reap_tasks_tasks now j rest out' s' keyed.1 unique.1 (λ i u found.
              let (other, whole) = rest_found i key t u rest unique.0 found in
              rw (one i, other) (held i u whole)) in
            ap (λ x. lookup j x.1.state.tasks) step
            ∙ rw kept at rests
            ∙ ap (landed s.state.releases now (lookup j rest)) (one j)
            ∙ landed_met s.state.releases now key j t rest s.state.tasks unique.0
      ]
