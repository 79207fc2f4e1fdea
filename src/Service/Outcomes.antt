-- ===== src/Service/Outcomes.antt =====
-- When a claim returns a task, and when it does not (`ClaimWithTTL`, internal/service/dispatch.go).
use go_prod22_go_project.Prelude.{
  suc, String, none, some, true, ◌==◌, ◌||◌, ◌&&◌, not, ◌≡◌, ◌≢◌, refl, sym, ◌∙◌, ◌⊎◌, inl, inr,
  arith, string_eq, eq_iff, pos, ◌<ℤ◌, ◌≤ℤ◌, ltb_ℤ,
}
use go_prod22_go_project.Prelude.Map.{lookup}
use go_prod22_go_project.Domain.Status.{TaskStatus, task_status_eq}
use go_prod22_go_project.Domain.Model.{Release, Device, Task, Time, Duration, hour, zero_time}
use go_prod22_go_project.Domain.Errors.{Error, Result, ok, err, panic}
use go_prod22_go_project.Domain.Task
use go_prod22_go_project.Domain.Task.Leases.{lease_iff, leased_to}
use go_prod22_go_project.Events.{Event, Payload, task_data, release_data}
use go_prod22_go_project.Store.{State, StoreOps}
use go_prod22_go_project.Service.Base.{
  Ports, Service, pure, lift, gets, guard, or_raise, find_device, find_release, get_device,
  get_release, clock_now, continue, modify, write_task, write_release, or_crash, new_id, append,
  snapshot, ◌>>=◌,
}
use go_prod22_go_project.Service.Dispatch.{
  dispatch_decision, eligible_tasks, head?, claim_locked, claim_with_ttl, enter_preflight,
}
use go_prod22_go_project.Service.Dispatch.Claims.{commit_claim, preflight_cases}
use go_prod22_go_project.Service.Dispatch.Decision.{allowed_found}
use go_prod22_go_project.Service.Dispatch.Eligible.{eligible_stands, eligible_iff}
use go_prod22_go_project.Service.Core.{emit, commit_task, save_task, save_release}
use go_prod22_go_project.Service.Inversion.{next_event}
use go_prod22_go_project.Service.WellFormed.{WellFormed}

-- The guards of a claim hold.
pub record MayClaim (device agent : String) (ttl : Duration) (st : State) : Type 0 where
  pub d : Device
  pub device_named : device ≢ ""
  pub agent_named : agent ≢ ""
  pub positive : pos 0 <ℤ ttl
  pub short : ttl ≤ℤ hour
  pub found : lookup device st.devices ≡ some d
  pub online : d.online ≡ true

names_lem :
    (device agent : String) → device ≢ "" → agent ≢ "" → not (device == "" || agent == "") ≡ true
names_lem device agent h k = ground (arith, eq_iff device "", eq_iff agent "")

ttl_lem :
    (ttl : Duration)
    → pos 0 <ℤ ttl
    → ttl ≤ℤ hour
    → (ltb_ℤ (pos 0) ttl && not (ltb_ℤ hour ttl)) ≡ true
ttl_lem ttl h k = ground arith

must_err : (x : Result Task) → ((u : Task) → x ≢ ok u) → x ≢ panic → (e : Error) × (x ≡ err e)
must_err (ok u) n p = absurd (n u refl)
must_err (err e) n p = (e, refl)
must_err panic n p = absurd (p refl)

lease-panic :
    (t : Task) (agent : String) (now : Time) (ttl : Duration) → Task.lease t agent now ttl ≢ panic
unfolding Task.lease Task.transition
lease-panic t agent now ttl h = ground arith

queued_rejected : TaskStatus.rejected ≢ TaskStatus.queued
queued_rejected e = cc

lease_rejected :
    (t : Task) (agent : String) (now : Time) (ttl : Duration)
    → t.status ≡ TaskStatus.rejected
    → (e : Error) × (Task.lease t agent now ttl ≡ err e)
lease_rejected t agent now ttl rejected =
    must_err (Task.lease t agent now ttl)
      (λ u leased. queued_rejected (sym rejected ∙ ((lease_iff t u agent now ttl).0 leased).1))
      (lease-panic t agent now ttl)

rested_later :
    (retry now later : Time)
    → (retry ≡ zero_time) ⊎ (retry ≤ℤ now)
    → now ≤ℤ later
    → (retry ≡ zero_time) ⊎ (retry ≤ℤ later)
rested_later retry now later (inl e) h = inl e
rested_later retry now later (inr e) h = inr (omega arith)

-- A store whose writes succeed.
pub record Works {S : Type 0} (ops : StoreOps S) : Type 0 where
  pub append_works : (e : Event) (st : S) → (ops.append e st).0 ≡ none
  pub snapshot_works : (x : State) (st : S) → (ops.snapshot x st).0 ≡ none

module _ {S : Type 0} (ports : Ports S) where
  -- A claim up to its lease.
  claim_lem :
      (device agent : String) (ttl : Duration) (s : Service S) (t : Task) (r : Release)
      → MayClaim device agent ttl s.state
      → head? (eligible_tasks device (ports.clock s.reads) s.state) ≡ some t
      → lookup t.release_id s.state.releases ≡ some r
      → (dispatch_decision t.release_id s.state).allowed ≡ true
      → claim_with_ttl ports device agent ttl s
        ≡ continue
            (Task.lease t agent (ports.clock (suc s.reads)) ttl)
            (commit_claim ports t r)
            (record s { reads = suc (suc s.reads) })
  unfolding claim_with_ttl claim_locked commit_claim guard find_device get_device gets or_raise
      find_release get_release clock_now lift ◌>>=◌
  claim_lem device agent ttl s t r may chosen found allowed =
      rw
        (
          names_lem device agent may.device_named may.agent_named,
          ttl_lem ttl may.positive may.short,
          may.found,
          may.online,
          chosen,
          found,
          allowed,
        )
        refl

  -- The head of the eligible tasks has a release, whose dispatch is allowed.
  head_lem :
      (device agent : String) (ttl : Duration) (s : Service S) (t : Task)
      → WellFormed s.state
      → MayClaim device agent ttl s.state
      → head? (eligible_tasks device (ports.clock s.reads) s.state) ≡ some t
      → (r : Release) × (claim_with_ttl ports device agent ttl s
          ≡ continue
              (Task.lease t agent (ports.clock (suc s.reads)) ttl)
              (commit_claim ports t r)
              (record s { reads = suc (suc s.reads) }))
        × ((t.next_retry ≡ zero_time) ⊎ (t.next_retry ≤ℤ ports.clock s.reads))
  head_lem device agent ttl s t w may chosen =
      let now = ports.clock s.reads in
      let (_, eligible) = eligible_stands device now s.state t w chosen in
      let (_, _, rested, allowed) = (eligible_iff device now s.state t).0 eligible in
      let (r, found) = allowed_found t.release_id s.state allowed in
      (r, claim_lem device agent ttl s t r may chosen found allowed, rested)

  -- In a well-formed service, where a rejected task is the first eligible one of a device, a claim
  -- of the device whose guards hold returns an error, and leaves the state and the store as they
  -- were.
  pub claim_rejected :
      (device agent : String) (ttl : Duration) (s : Service S) (t : Task)
      → WellFormed s.state
      → MayClaim device agent ttl s.state
      → head? (eligible_tasks device (ports.clock s.reads) s.state) ≡ some t
      → t.status ≡ TaskStatus.rejected
      → (e : Error) × (claim_with_ttl ports device agent ttl s
          ≡ (err e, record s { reads = suc (suc s.reads) }))
  claim_rejected device agent ttl s t w may chosen rejected =
      let (r, same, _) = head_lem device agent ttl s t w may chosen in
      let (e, refused) = lease_rejected t agent (ports.clock (suc s.reads)) ttl rejected in
      (e, rw (same, refused) refl)

  module _ (works : Works ports.store) where
    emit_works :
        (type aggregate : String) (v : Payload) (s : Service S)
        → (emit ports type aggregate v s).0 ≡ ok tt
    unfolding emit new_id clock_now append snapshot modify ◌>>=◌
    emit_works type aggregate v s =
        rw (works.append_works (next_event ports type aggregate v s) s.st, works.snapshot_works _ _)
          refl

    save_task_works :
        (key aggregate : String) (t : Task) (s : Service S)
        → (save_task ports key aggregate t s).0 ≡ ok tt
    unfolding save_task commit_task write_task modify or_crash ◌>>=◌
    save_task_works key aggregate t s = emit_works "task.updated" aggregate (task_data t) _

    save_release_works :
        (key aggregate : String) (r : Release) (s : Service S)
        → (save_release ports key aggregate r s).0 ≡ ok tt
    unfolding save_release write_release modify ◌>>=◌
    save_release_works key aggregate r s = emit_works "release.updated" aggregate (release_data r) _

    enter_preflight_works :
        (key : String) (r : Release) (s : Service S) → (enter_preflight ports key r s).0 ≡ ok tt
    enter_preflight_works key r s = elim (preflight_cases ports key r s) [
      | inl e ↦ rw e refl
      | inr (r', e) ↦ rw e (save_release_works key r'.id r' _)
    ]

    commit_claim_works :
        (t : Task) (r : Release) (u : Task) (s : Service S) → (commit_claim ports t r u s).0 ≡ ok u
    unfolding commit_claim pure ◌>>=◌
    commit_claim_works t r u s =
        rw
          (
            save_task_works t.id u.id u s,
            enter_preflight_works t.release_id r (save_task ports t.id u.id u s).1,
          )
          refl

    -- Over a store whose appends and snapshots succeed, in a well-formed service whose clock does
    -- not go back between its two readings, a claim with a named agent, a named, known and online
    -- device and a positive duration of at most an hour returns the first eligible task, leased to
    -- the agent, where that task is queued.
    pub claim_succeeds :
        (device agent : String) (ttl : Duration) (s : Service S) (t : Task)
        → WellFormed s.state
        → MayClaim device agent ttl s.state
        → ports.clock s.reads ≤ℤ ports.clock (suc s.reads)
        → head? (eligible_tasks device (ports.clock s.reads) s.state) ≡ some t
        → t.status ≡ TaskStatus.queued
        → (claim_with_ttl ports device agent ttl s).0
          ≡ ok (leased_to agent (ports.clock (suc s.reads)) ttl t)
    claim_succeeds device agent ttl s t w may later chosen queued =
        let now = ports.clock (suc s.reads) in
        let u = leased_to agent now ttl t in
        let (r, same, rested) = head_lem device agent ttl s t w may chosen in
        let leased : Task.lease t agent now ttl ≡ ok u = (lease_iff t u agent now ttl).1 (
          may.agent_named,
          queued,
          rested_later t.next_retry (ports.clock s.reads) now rested later,
          refl,
        ) in
        rw (same, leased) (commit_claim_works t r u _)
