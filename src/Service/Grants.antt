-- ===== src/Service/Grants.antt =====
-- What a claim grants (`ClaimWithTTL`, internal/service/dispatch.go).
use go_prod22_go_project.Prelude.{
  suc, String, some, Bool, true, false, ◌==◌, ◌||◌, ◌&&◌, not, ◌≡◌, ◌≢◌, refl, sym, ◌∙◌, ap, arith,
  string_eq, eq_iff, pos, ◌<ℤ◌, ◌≤ℤ◌, ltb_ℤ,
}
use go_prod22_go_project.Prelude.Map.{Map, lookup}
use go_prod22_go_project.Domain.Status.{TaskStatus, task_status_eq}
use go_prod22_go_project.Domain.Model.{Device, Task, Duration, hour}
use go_prod22_go_project.Domain.Errors.{Error, ok, not_found}
use go_prod22_go_project.Domain.Task.Leases.{lease_iff, leased_to}
use go_prod22_go_project.Service.Base.{Ports, Service, Cmd, guard, find_device, ◌>>=◌}
use go_prod22_go_project.Service.Dispatch.{is_eligible, claim_locked, claim_with_ttl}
use go_prod22_go_project.Service.Dispatch.Claims.{claim_locked_ok}
use go_prod22_go_project.Service.Inversion.{bind_ok, find_device_ok}
use go_prod22_go_project.Service.Keeps.{Ends-same}
use go_prod22_go_project.Service.Preserved.Claims.{claim_with_ttl-Keeps}
use go_prod22_go_project.Service.WellFormed.{WellFormed, IsWellFormed, IsWellFormed-laws}

named_agent : (device agent : String) → not (device == "" || agent == "") ≡ true → agent ≢ ""
named_agent device agent h = ground (arith, eq_iff agent "")

bounded_ttl :
    (ttl : Duration)
    → (ltb_ℤ (pos 0) ttl && not (ltb_ℤ hour ttl)) ≡ true
    → (pos 0 <ℤ ttl) × (ttl ≤ℤ hour)
bounded_ttl ttl h = ground arith

leased_elsewhere :
    (m : Map Task) (u t : Task)
    → lookup u.id m ≡ some u
    → lookup t.id m ≡ some t
    → u.status ≡ TaskStatus.leased
    → t.status ≡ TaskStatus.queued
    → u.id ≢ t.id
leased_elsewhere m u t stored stands leased queued same =
    let twice : some u ≡ some t = sym stored ∙ ap (λ id. lookup id m) same ∙ stands in
    let one : u ≡ t = cc in
    let both : TaskStatus.leased ≡ TaskStatus.queued =
      sym leased ∙ ap (λ x. x.status) one ∙ queued in
    cc

module _ {S : Type 0} where
  guard_bind_ok :
      {C : Type 0} (b : Bool) (e : Error) (m : Cmd S C) (s : Service S) {c : C}
      → ((guard b e >>= λ _. m) s).0 ≡ ok c
      → (b ≡ true) × ((guard b e >>= λ _. m) s ≡ m s)
  unfolding guard ◌>>=◌
  guard_bind_ok true e m s h = (refl, refl)
  guard_bind_ok false e m s h = cc

  find_device_bind_ok :
      {C : Type 0} (id : String) (e : Error) (f : Device → Cmd S C) (s : Service S) {c : C}
      → ((find_device id e >>= f) s).0 ≡ ok c
      → (d : Device) × (lookup id s.state.devices ≡ some d) × ((find_device id e >>= f) s ≡ f d s)
  find_device_bind_ok id e f s h =
      let (d, found, same) = bind_ok (find_device id e) f s h in
      let (stands, kept) = find_device_ok id e s found in (d, stands, same ∙ ap (f d) kept)

module _ {S : Type 0} (ports : Ports S) where
  -- A claim that returns goes through its guards to the part that holds the lock.
  claim_guards :
      (device agent : String) (ttl : Duration) (s : Service S) {u : Task}
      → (claim_with_ttl ports device agent ttl s).0 ≡ ok u
      → (agent ≢ "")
        × (pos 0 <ℤ ttl)
        × (ttl ≤ℤ hour)
        × ((d : Device) × (lookup device s.state.devices ≡ some d) × (d.online ≡ true))
        × (claim_with_ttl ports device agent ttl s ≡ claim_locked ports device agent ttl s)
  unfolding claim_with_ttl
  claim_guards device agent ttl s h =
      let (named, e₁) = guard_bind_ok _ _ _ s h in
      let (bounded, e₂) = guard_bind_ok _ _ _ s (rw e₁ at h) in
      let (d, stands, e₃) = find_device_bind_ok device not_found _ s (rw (e₁ ∙ e₂) at h) in
      let (online, e₄) = guard_bind_ok d.online _ _ s (rw (e₁ ∙ e₂ ∙ e₃) at h) in
      (
        named_agent device agent named,
        (bounded_ttl ttl bounded).0,
        (bounded_ttl ttl bounded).1,
        (d, stands, online),
        e₁ ∙ e₂ ∙ e₃ ∙ e₄,
      )

  -- In a well-formed service, a claim that returns a task had a named agent, a positive duration of
  -- at most an hour and a known device that is online; the task is one of the state, queued and
  -- eligible for the device, now leased to the agent, and the state holds it so afterwards.
  pub claim_grants :
      (device agent : String) (ttl : Duration) (s : Service S) (u : Task)
      → WellFormed s.state
      → (claim_with_ttl ports device agent ttl s).0 ≡ ok u
      → (agent ≢ "")
        × (pos 0 <ℤ ttl)
        × (ttl ≤ℤ hour)
        × ((d : Device) × (lookup device s.state.devices ≡ some d) × (d.online ≡ true))
        × ((t : Task) × (lookup t.id s.state.tasks ≡ some t)
            × (is_eligible device (ports.clock s.reads) s.state t ≡ true)
            × (t.status ≡ TaskStatus.queued)
            × (u ≡ leased_to agent (ports.clock (suc s.reads)) ttl t))
        × (lookup u.id (claim_with_ttl ports device agent ttl s).1.state.tasks ≡ some u)
  claim_grants device agent ttl s u w h =
      let (named, positive, short, online, same) = claim_guards device agent ttl s h in
      let (t, stands, eligible, leased, stored) =
        claim_locked_ok ports device agent ttl s w (rw same at h) in
      let (_, queued, _, granted) =
        (lease_iff t u agent (ports.clock (suc s.reads)) ttl).0 leased in
      (named, positive, short, online, (t, stands, eligible, queued, granted), rw same stored)

  -- In a well-formed service, two claims of which the second follows the first directly, by any
  -- devices and agents, and which both return a task, return tasks with different ids.
  pub claim-claim :
      (device device' agent agent' : String) (ttl ttl' : Duration) (s : Service S) (u v : Task)
      → WellFormed s.state
      → (claim_with_ttl ports device agent ttl s).0 ≡ ok u
      → (claim_with_ttl ports device' agent' ttl' (claim_with_ttl ports device agent ttl s).1).0
        ≡ ok v
      → u.id ≢ v.id
  claim-claim device device' agent agent' ttl ttl' s u v w h k same =
      let s' : Service S = (claim_with_ttl ports device agent ttl s).1 in
      let (_, _, _, _, (t₀, _, _, _, granted), stored) = claim_grants device agent ttl s u w h in
      let w' : WellFormed s'.state =
        Ends-same IsWellFormed (claim_with_ttl ports device agent ttl s)
          ((claim_with_ttl-Keeps (IsWellFormed-laws ports) device agent ttl).at s w) in
      let (_, _, _, _, (t, stands, _, queued, granted'), _) =
        claim_grants device' agent' ttl' s' v w' k in
      leased_elsewhere s'.state.tasks u t stored stands (rw granted refl) queued
        (same ∙ ap (λ x. x.id) granted')
