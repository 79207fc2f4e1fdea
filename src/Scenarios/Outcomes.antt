-- ===== src/Scenarios/Outcomes.antt =====
-- The theorems on claims that succeed or fail, on reaping, pages and loaded states, at concrete
-- services and states.
use go_prod22_go_project.Domain.Task.{verify_lease}
use go_prod22_go_project.Prelude.{
  ◌≢◌, ◌<ℤ◌, ◌≤ℤ◌, false, ℕ, suc, ◌+◌, ◌≤◌, ◌<◌, some, true, List, [], ◌∷◌, ◌++◌, pos, ◌≡◌, refl,
  ◌↔◌, arith, count, drop, length, ◌-ℤ◌, int64,
}
use go_prod22_go_project.Prelude.Map.{lookup, values}
use go_prod22_go_project.Domain.Status.{ReleaseStatus, TaskStatus}
use go_prod22_go_project.Domain.Model.{Task, Device, minute}
use go_prod22_go_project.Domain.Errors.{lease_owner, Error, ok, err}
use go_prod22_go_project.Domain.Task.Leases.{leased_to}
use go_prod22_go_project.Domain.Release.{terminal}
use go_prod22_go_project.Scheduler.{active}
use go_prod22_go_project.Store.Memory.{MemoryStore, memory_store, new_memory_store}
use go_prod22_go_project.Service.Base.{Service}
use go_prod22_go_project.Service.Dispatch.{
  claim_with_ttl, head?, eligible_tasks, is_eligible, dispatch_decision, decide_release, list_tasks,
}
use go_prod22_go_project.Service.Outcomes.{MayClaim, Works, claim_succeeds, claim_rejected}
use go_prod22_go_project.Service.Reaping.{reaped_lem, reap_expired_lem}
use go_prod22_go_project.Service.Reaping.Outcomes.{is_failing, is_requeued, outcome}
use mathlib.Core.Option.{map}
use go_prod22_go_project.Service.Rollback.{is_expired, reaped, ReapResult, reap_expired_detailed}
use go_prod22_go_project.Service.Pages.{page}
use go_prod22_go_project.Service.Pages.Tiling.{page_lem}
use go_prod22_go_project.Service.WellFormed.{WellFormed}
use go_prod22_go_project.Recovery.{check, repairable}
use go_prod22_go_project.Recovery.Soundness.{
  AreRelated, AreNamed, AreAttached, check_iff, repairable_iff,
}
use go_prod22_go_project.Scenarios.{ports}
use go_prod22_go_project.Scenarios.Records.{waiting, held, rollout, agent}
use go_prod22_go_project.Scenarios.Prepared.{
  prepared, left_device, left_found, left_online, head_task, head_chosen, head_queued, clock_later,
}
use go_prod22_go_project.Scenarios.Runs.{prepared-WellFormed}

abbrev memory_works : Works memory_store
memory_works = record { append_works = λ e st. refl; snapshot_works = λ x st. refl }

left_may : MayClaim "left" agent minute prepared.state
left_may = record {
  d = left_device;
  device_named = λ e. cc;
  agent_named = λ e. cc;
  positive = omega arith;
  short = omega arith;
  found = left_found;
  online = left_online;
}

claim_succeeds_example :
    (claim_with_ttl ports "left" agent minute prepared).0
    ≡ ok (leased_to agent (ports.clock (suc prepared.reads)) minute head_task)
claim_succeeds_example =
    claim_succeeds ports memory_works "left" agent minute prepared head_task prepared-WellFormed
      left_may clock_later head_chosen head_queued

abbrev device : Device
device = record {
  id = "device-1";
  firmware = "1.0.0";
  capabilities = [];
  registered_at = pos 1;
  last_seen = pos 1;
  online = true;
}

abbrev turned_down : Task
turned_down = record waiting { status = TaskStatus.rejected; next_retry = pos 5 }

-- A service whose only task was rejected, and has waited out its backoff.
abbrev stuck : Service MemoryStore
stuck = record {
  st = new_memory_store;
  reads = 0;
  issued = 0;
  state = record {
    releases = ("rel-1", rollout ReleaseStatus.installing) ∷ [];
    devices = ("device-1", device) ∷ [];
    tasks = ("task-1", turned_down) ∷ [];
    audit = [];
  };
}

stuck-WellFormed : WellFormed stuck.state
unfolding lookup
stuck-WellFormed = record {
  tasks_keyed = (refl, tt);
  releases_keyed = (refl, tt);
  devices_keyed = (refl, tt);
  tasks_unique = (refl, tt);
  releases_unique = (refl, tt);
  devices_unique = (refl, tt);
}

stuck_may : MayClaim "device-1" agent minute stuck.state
unfolding lookup
stuck_may = record {
  d = device;
  device_named = λ e. cc;
  agent_named = λ e. cc;
  positive = omega arith;
  short = omega arith;
  found = refl;
  online = refl;
}

stuck_chosen : head? (eligible_tasks "device-1" (pos 1000) stuck.state) ≡ some turned_down
unfolding eligible_tasks is_eligible dispatch_decision decide_release list_tasks lookup active
    terminal ◌-ℤ◌ int64
stuck_chosen = refl

claim_rejected_example :
    (e : Error) × (claim_with_ttl ports "device-1" agent minute stuck
      ≡ (err e, record stuck { reads = 2 }))
claim_rejected_example =
    claim_rejected ports "device-1" agent minute stuck turned_down stuck-WellFormed stuck_may
      stuck_chosen refl

-- A service whose only task has a lease that ran out.
abbrev stale : Service MemoryStore
stale = record stuck { state = record stuck.state { tasks = ("task-1", held) ∷ [] } }

stale-WellFormed : WellFormed stale.state
unfolding lookup
stale-WellFormed = record {
  tasks_keyed = (refl, tt);
  releases_keyed = (refl, tt);
  devices_keyed = (refl, tt);
  tasks_unique = (refl, tt);
  releases_unique = (refl, tt);
  devices_unique = (refl, tt);
}

reap_expired_lem_example :
    let (result, s') = reap_expired_detailed ports stale in
    (out : ReapResult) × (result ≡ ok out)
    × (out.failed ≡ count (is_failing stale.state.releases (pos 1000)) (values stale.state.tasks))
    × (out.requeued
        ≡ count (is_requeued stale.state.releases (pos 1000)) (values stale.state.tasks))
    × (lookup "task-1" s'.state.tasks
        ≡ map (outcome stale.state.releases (pos 1000)) (lookup "task-1" stale.state.tasks))
reap_expired_lem_example = reap_expired_lem ports stale "task-1" stale-WellFormed

abbrev listing : List ℕ
listing = 1 ∷ 2 ∷ 3 ∷ []

page_lem_example :
    let p = page listing (pos 1) (pos 1) in
    (k : ℕ) × (p.offset ≡ pos 1)
    × (p.limit ≡ pos k)
    × (k ≤ 100)
    × (1 + k ≤ length listing)
    × (1 < length listing → 1 ≤ k)
    × (p.items ++ drop (1 + k) listing ≡ drop 1 listing)
page_lem_example = page_lem listing 1 (pos 1) (omega arith) (omega arith)

check_iff_example : (check stuck.state ≡ ok tt) ↔ AreRelated stuck.state.releases stuck.state.tasks
check_iff_example = check_iff stuck.state

repairable_iff_example :
    (repairable stuck.state ≡ true)
    ↔ (AreNamed stuck.state.releases × AreAttached stuck.state stuck.state.tasks)
repairable_iff_example = repairable_iff stuck.state

reaped_lem_example :
    let u = reaped (pos 1000) (rollout ReleaseStatus.installing) held in
    (is_expired (pos 2000) u ≡ false)
    × (verify_lease u agent (pos 2000) ≡ err lease_owner)
    × ((u.status ≡ TaskStatus.failed)
        ↔ ((TaskStatus.leased ≢ TaskStatus.rolling_back) × (pos 3 <ℤ held.attempts)))
    × ((u.status ≡ TaskStatus.rollback_queued) ↔ (TaskStatus.leased ≡ TaskStatus.rolling_back))
    × ((u.status ≡ TaskStatus.queued)
        ↔ ((TaskStatus.leased ≢ TaskStatus.rolling_back) × (held.attempts ≤ℤ pos 3)))
reaped_lem_example =
    reaped_lem (pos 1000) (pos 2000) (rollout ReleaseStatus.installing) held agent (λ e. cc)
