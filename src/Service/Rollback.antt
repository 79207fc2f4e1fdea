-- ===== src/Service/Rollback.antt =====
-- Rollbacks and expired leases (internal/service/rollback.go).
use go_prod22_go_project.Prelude.{
  ℕ, suc, String, Option, none, some, Bool, ◌==◌, ◌||◌, ◌&&◌, not, if◌then◌else◌, List, [], ◌∷◌,
  ◌++◌, keep, all, sort_by, pos, ◌+ℤ◌, ◌*ℤ◌, int64, ltb_ℤ, string_eq, int_eq,
}
use go_prod22_go_project.Prelude.Map.{Map, values}
use go_prod22_go_project.Prelude.Text.{str_ltb}
use go_prod22_go_project.Domain.Status.{
  TaskStatus, ReleaseStatus, task_status_eq, release_status_eq,
}
use go_prod22_go_project.Domain.Model.{Release, Task, Time, is_zero, before, after, add, minute}
use go_prod22_go_project.Domain.Errors.{Result, ok, not_found, no_task}
use go_prod22_go_project.Domain.Task
use go_prod22_go_project.Domain.Task.{verify_lease, release_lease, is_active}
use go_prod22_go_project.Domain.Release
use go_prod22_go_project.Domain.Validation.{contains}
use go_prod22_go_project.Store.{State}
use go_prod22_go_project.Service.Base.{
  Ports, Cmd, pure, lift, gets, or_raise, ignore, find_task, find_release, deref_release,
  get_release, write_release, clock_now, ◌>>=◌, ◌>>◌,
}
use go_prod22_go_project.Service.Dispatch.{head?}
use go_prod22_go_project.Service.Core.{save_task, save_release, reconcile}

-- A release that is pending already is not moved.
unfoldable pub begin_rollback : Release → Result Release
begin_rollback r =
    if not (r.status == ReleaseStatus.rollback_pending)
    then Release.transition r ReleaseStatus.rollback_pending
    else ok r

abbrev pub is_finished_in : String → Task → Bool
is_finished_in release t =
    t.release_id == release && (t.status == TaskStatus.completed || t.status == TaskStatus.failed)

pub record ReapResult : Type 0 where
  pub requeued : ℕ
  pub failed : ℕ
  pub releases : List String

abbrev pub no_reaps : ReapResult
no_reaps = record { requeued = 0; failed = 0; releases = [] }

-- The lease of an active task that has run out.
unfoldable pub is_expired : Time → Task → Bool
unfolding is_active
is_expired now t = is_active t && not (is_zero t.lease_until) && after now t.lease_until

-- What becomes of a task whose lease ran out.
unfoldable pub reaped : Time → Release → Task → Task
reaped now r t =
    let freed = record (release_lease t) { error = "lease expired"; updated_at = now } in
    if t.status == TaskStatus.rolling_back
    then record freed { status = TaskStatus.rollback_queued }
    else if ltb_ℤ r.retry_limit t.attempts
    then record freed { status = TaskStatus.failed }
    else record freed {
      status = TaskStatus.queued;
      next_retry = add now (int64 (t.attempts *ℤ minute));
    }

-- The counts, and the set `changed` as the list of its keys.
abbrev pub tallied : Release → Task → ReapResult → ReapResult
tallied r t out =
    let changed =
      if contains t.release_id out.releases
      then out.releases
      else out.releases ++ t.release_id ∷ [] in
    if t.status == TaskStatus.rolling_back
    then record out { requeued = suc out.requeued; releases = changed }
    else if ltb_ℤ r.retry_limit t.attempts
    then record out { failed = suc out.failed; releases = changed }
    else record out { requeued = suc out.requeued; releases = changed }

module _ {S : Type 0} (ports : Ports S) where
  unfoldable pub queue_task : String → String → Task → Cmd S Task
  queue_task key reason t = do
    t' ← lift (Task.transition t TaskStatus.rollback_queued)
    now ← clock_now ports
    let u : Task = record (release_lease t') { error = reason; updated_at = now }
    save_task ports key u.id u
    pure u

  unfoldable pub queue_tasks : String → String → Map Task → Cmd S (List Task)
  queue_tasks release reason [] = pure []
  queue_tasks release reason ((key, t) ∷ rest) =
      let others = queue_tasks release reason rest in
      if not (is_finished_in release t)
      then others
      else do u ← queue_task key reason t; us ← others; pure (u ∷ us)

  unfoldable pub queue_rollback : String → String → Cmd S (List Task)
  queue_rollback release reason = do
    r ← find_release release not_found
    r' ← lift (begin_rollback r)
    write_release release r'
    entries ← gets (λ st. st.tasks)
    queued ← queue_tasks release reason entries
    now ← clock_now ports
    save_release ports release r'.id (record r' { updated_at = now })
    pure (sort_by (λ a b. str_ltb a.device_id b.device_id) queued)

  unfoldable pub rollback_candidates : String → State → List Task
  rollback_candidates device st =
      sort_by (λ a b. before a.updated_at b.updated_at)
        (keep (λ t. t.device_id == device && t.status == TaskStatus.rollback_queued)
          (values st.tasks))

  unfoldable pub claim_rollback : String → String → Cmd S Task
  claim_rollback device agent = do
    now ← clock_now ports
    candidates ← gets (rollback_candidates device)
    t ← or_raise (head? candidates) no_task
    let u : Task = record t {
      status = TaskStatus.rolling_back;
      lease_owner = agent;
      lease_until = add now (pos 300000000000);
      attempts = int64 (t.attempts +ℤ pos 1);
      updated_at = now;
    }
    save_task ports t.id u.id u
    pure u

  -- The tasks that keep a release from being rolled back.
  abbrev pub is_settled : String → Task → Bool
  is_settled release t =
      not (t.release_id == release)
      || t.status == TaskStatus.rolled_back
      || t.status == TaskStatus.queued
      || t.status == TaskStatus.rejected

  unfoldable pub finish_rollback : String → Cmd S (Unit {0})
  finish_rollback release = do
    tasks ← gets (λ st. values st.tasks)
    if not (all (is_settled release) tasks) then pure tt else do
      r ← deref_release release
      r' ← lift (Release.transition r ReleaseStatus.rolled_back)
      now ← clock_now ports
      save_release ports release r'.id (record r' { updated_at = now })

  unfoldable pub roll_back : String → String → Task → Cmd S (Unit {0})
  roll_back id agent t = do
    now ← clock_now ports
    lift (verify_lease t agent now)
    t' ← lift (Task.transition t TaskStatus.rolled_back)
    updated ← clock_now ports
    let u : Task = record (release_lease t') { updated_at = updated }
    save_task ports id u.id u
    finish_rollback u.release_id

  unfoldable pub complete_rollback : String → String → Cmd S (Unit {0})
  complete_rollback id agent = do
    t ← find_task id not_found
    if t.status == TaskStatus.rolled_back then pure tt else roll_back id agent t

  unfoldable pub reap_one : Time → String → Task → Option Release → ReapResult → Cmd S ReapResult
  reap_one now key t none out = pure out
  reap_one now key t (some r) out = do
    let u : Task = reaped now r t
    ignore (save_task ports key u.id u)
    pure (tallied r t out)

  unfoldable pub reap_tasks : Time → Map Task → ReapResult → Cmd S ReapResult
  reap_tasks now [] out = pure out
  reap_tasks now ((key, t) ∷ rest) out =
      if not (is_expired now t) then reap_tasks now rest out else do
        owner ← get_release t.release_id
        out' ← reap_one now key t owner out
        reap_tasks now rest out'

  unfoldable pub reconcile_all : List String → Cmd S (Unit {0})
  reconcile_all [] = pure tt
  reconcile_all (id ∷ ids) = do reconcile ports id; reconcile_all ids

  unfoldable pub reap_expired_detailed : Cmd S ReapResult
  reap_expired_detailed = do
    now ← clock_now ports
    entries ← gets (λ st. st.tasks)
    out ← reap_tasks now entries no_reaps
    reconcile_all out.releases
    pure (record out { releases = sort_by str_ltb out.releases })

  unfoldable pub reap_expired : Cmd S (Unit {0})
  unfolding reap_expired_detailed
  reap_expired = do reap_expired_detailed; pure tt
