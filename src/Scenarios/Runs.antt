-- ===== src/Scenarios/Runs.antt =====
-- The theorems on the service, at the prepared service and its runs.
use go_prod22_go_project.Prelude.{
  Option, ℤ, none, ◌⊎◌, ap, arith, ◌-ℤ◌, IsInt64, some, true, false, [], ◌∷◌, pos, int64, ◌+ℤ◌, ◌≡◌,
  ◌≢◌, refl, ◌↔◌, ◌<ℤ◌, ◌≤ℤ◌, suc,
}
use go_prod22_go_project.Prelude.Map.{lookup, insert}
use go_prod22_go_project.Domain.Status.{ReleaseStatus, TaskStatus}
use go_prod22_go_project.Domain.Model.{Release, Task, Device, minute, hour}
use go_prod22_go_project.Domain.Task.{lease, transition}
use go_prod22_go_project.Domain.State.{valid_transition}
use go_prod22_go_project.Domain.Task.Leases.{leased_to}
use go_prod22_go_project.Domain.Release.{terminal}
use go_prod22_go_project.Scheduler.{active}
use go_prod22_go_project.Store.{State, empty_state}
use go_prod22_go_project.Store.Memory.{new_memory_store}
use go_prod22_go_project.Service.Core.{new}
use go_prod22_go_project.Service.Commands.{run}
use go_prod22_go_project.Service.Dispatch.{
  claim_with_ttl, dispatch_decision, list_tasks, is_eligible, release_age,
}
use go_prod22_go_project.Service.Dispatch.Decision.{dispatch_allowed_iff, dispatch_decision-lease}
use go_prod22_go_project.Service.Dispatch.Eligible.{
  CanRun, eligible_head, eligible_stands, eligible_iff,
}
use go_prod22_go_project.Prelude.Text.{str_ltb}
use go_prod22_go_project.Service.Grants.{claim_grants, claim-claim}
use go_prod22_go_project.Service.WellFormed.{WellFormed, empty-WellFormed}
use go_prod22_go_project.Service.WellFormed.Runs.{run-new-WellFormed}
use go_prod22_go_project.Service.Sync.View.{SameView}
use go_prod22_go_project.Service.Sync.Memory.{memory_journal}
use go_prod22_go_project.Service.Sync.Recovery.{nothing, recovery}
use go_prod22_go_project.Scenarios.{ports}
use go_prod22_go_project.Scenarios.Records
use go_prod22_go_project.Scenarios.Records.{waiting, held, agent}
use go_prod22_go_project.Scenarios.Prepared.{
  setup, rollout, prepared, left_task, right_task, next_task, left_claims, right_claims,
  next_chosen, rollout-NoPanic, rollout_logged,
}

recovery_example :
    let before = run ports rollout (new ports new_memory_store) in
    SameView nothing (new ports before.st).state before.state
recovery_example =
    recovery ports (memory_journal ports.clock ports.ids) new_memory_store rollout tt tt refl refl
      (refl, (refl, (refl, (refl, tt)))) rollout-NoPanic rollout_logged tt

run-new-WellFormed_example : WellFormed (run ports setup (new ports new_memory_store)).state
run-new-WellFormed_example = run-new-WellFormed ports new_memory_store setup empty-WellFormed

pub prepared-WellFormed : WellFormed prepared.state
unfolding prepared
prepared-WellFormed = run-new-WellFormed ports new_memory_store setup empty-WellFormed

claim_grants_example :
    (agent ≢ "")
    × (pos 0 <ℤ minute)
    × (minute ≤ℤ hour)
    × ((d : Device) × (lookup "left" prepared.state.devices ≡ some d) × (d.online ≡ true))
    × ((t : Task) × (lookup t.id prepared.state.tasks ≡ some t)
        × (is_eligible "left" (ports.clock prepared.reads) prepared.state t ≡ true)
        × (t.status ≡ TaskStatus.queued)
        × (left_task ≡ leased_to agent (ports.clock (suc prepared.reads)) minute t))
    × (lookup left_task.id (claim_with_ttl ports "left" agent minute prepared).1.state.tasks
        ≡ some left_task)
claim_grants_example =
    claim_grants ports "left" agent minute prepared left_task prepared-WellFormed left_claims

claim-claim_example : left_task.id ≢ right_task.id
claim-claim_example =
    claim-claim ports "left" "right" agent agent minute minute prepared left_task right_task
      prepared-WellFormed left_claims right_claims

next-CanRun : CanRun "left" (pos 2000) prepared.state next_task
next-CanRun =
    let (stored, eligible) =
      eligible_stands "left" (pos 2000) prepared.state next_task prepared-WellFormed next_chosen in
    let (of_device, waits, rested, allowed) =
      (eligible_iff "left" (pos 2000) prepared.state next_task).0 eligible in
    record {
      stored = stored;
      of_device = of_device;
      waits = waits;
      rested = rested;
      allowed = allowed;
    }

eligible_head_example :
    CanRun "left" (pos 2000) prepared.state next_task
    × ((release_age prepared.state next_task <ℤ release_age prepared.state next_task)
        ⊎ ((release_age prepared.state next_task ≡ release_age prepared.state next_task)
            × (str_ltb next_task.id next_task.id ≡ false)))
eligible_head_example =
    eligible_head "left" (pos 2000) prepared.state next_task next_task prepared-WellFormed
      next_chosen next-CanRun

abbrev one_task : State
one_task = record empty_state { tasks = ("task-1", waiting) ∷ [] }

abbrev one_release : State
one_release = record one_task {
  releases = ("rel-1", Records.rollout ReleaseStatus.installing) ∷ [];
}

abbrev of_limit : Option Release → ℤ
of_limit none = pos 0
of_limit (some r) = r.max_concurrent

one_fits :
    (r : Release)
    → lookup "rel-1" one_release.releases ≡ some r
    → IsInt64 (r.max_concurrent -ℤ pos (active (list_tasks "rel-1" one_release)))
unfolding lookup list_tasks active ◌-ℤ◌
one_fits r e = let limit : pos 2 ≡ r.max_concurrent = ap of_limit e in rw⁻¹ limit (omega arith)

dispatch_allowed_iff_example : ((dispatch_decision "rel-1" one_release).allowed ≡ true) ↔ (
    (r : Release) × (lookup "rel-1" one_release.releases ≡ some r)
    × (terminal r ≡ false)
    × (r.status ≢ ReleaseStatus.paused)
    × (r.status ≢ ReleaseStatus.rollback_pending)
    × (pos (active (list_tasks "rel-1" one_release)) <ℤ r.max_concurrent)
    × (pos 0 <ℤ r.batch_size))
dispatch_allowed_iff_example = dispatch_allowed_iff "rel-1" one_release one_fits

one_found : lookup waiting.id one_task.tasks ≡ some waiting
unfolding lookup
one_found = refl

dispatch_decision-lease_example :
    dispatch_decision "rel-1" (record one_task { tasks = insert held.id held one_task.tasks })
    ≡ dispatch_decision "rel-1" one_task
unfolding lease transition valid_transition int64 ◌+ℤ◌
dispatch_decision-lease_example =
    dispatch_decision-lease "rel-1" one_task waiting held agent (pos 20) (pos 30) one_found refl
