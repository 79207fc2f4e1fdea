-- ===== src/Service/Ticking.antt =====
-- The scheduler's tick on the service (internal/scheduler/scheduler.go, `Tick`).
use go_prod22_go_project.Prelude.{
  ℕ, suc, ◌+◌, ◌%◌, ◌^◌, ◌≤◌, ◌<◌, ℤ, pos, ◌-ℤ◌, ◌≤ℤ◌, String, ◌≡◌, refl, ap, List, [], ◌∷◌, length,
  arith,
}
use go_prod22_go_project.Prelude.Map.{Map, lookup, values, insert, replace}
use go_prod22_go_project.Domain.Model.{Task}
use go_prod22_go_project.Domain.Errors.{ok}
use go_prod22_go_project.Events.{Event, Payload, release_data, device_data, task_data, raw}
use go_prod22_go_project.Store.{State}
use go_prod22_go_project.Service.Base.{Ports, Service, Cmd, gets, pure, ◌>>=◌, ◌>>◌}
use go_prod22_go_project.Service.Core.{
  apply, project_cases, put_task, put_release, put_device, record_audit,
}
use go_prod22_go_project.Service.Rollback.{reap_expired, reap_expired_detailed}
use go_prod22_go_project.Service.Reaping.{reap_expired_lem}
use go_prod22_go_project.Service.Reaping.Outcomes.{outcome}
use mathlib.Core.Option.{map}
use go_prod22_go_project.Service.Keeps.States.{Steady, Steady-Laws}
use go_prod22_go_project.Service.Preserved.Rollback.{reap_expired-Keeps}
use go_prod22_go_project.Service.WellFormed.{
  WellFormed, apply-WellFormed, write_task-WellFormed, write_release-WellFormed,
  write_device-WellFormed,
}

-- `TaskSnapshot` (internal/service/query.go).
abbrev pub task_snapshot : State → List Task
task_snapshot st = values st.tasks

-- How many tasks fewer there are, and the number of runs, a `uint64`.
unfoldable pub tick : {S : Type 0} → Ports S → ℕ → Cmd S (ℤ × ℕ)
unfolding reap_expired ◌-ℤ◌
tick ports runs = do
  before ← gets (λ st. length (task_snapshot st))
  reap_expired ports
  after ← gets (λ st. length (task_snapshot st))
  pure (pos before -ℤ pos after, (runs + 1) % 2 ^ 64)

-- A well-formed state with at least so many tasks.
abbrev Holds : ℕ → State → Type 0
Holds n st = WellFormed st × (n ≤ length st.tasks)

length-insert : (k : String) (t : Task) (m : Map Task) → length m ≤ length (insert k t m)
unfolding insert
length-insert k t [] = omega arith
length-insert k t ((j, u) ∷ m) = ground (arith, length-insert k t m)

length-replace : (k : String) (t : Task) (m : Map Task) → length (replace k t m) ≡ length m
unfolding replace
length-replace k t [] = refl
length-replace k t ((j, u) ∷ m) = ground (arith, length-replace k t m)

-- What applies an event leaves no task out.
apply_more : (n : ℕ) (e : Event) (st : State) → n ≤ length st.tasks → n ≤ length (apply e st).tasks
unfolding apply
apply_more n e st h =
    let st' : State = record st { audit = record_audit e st.audit } in
    project_cases (λ x. n ≤ length x.tasks) e st' (release_more e.payload) (device_more e.payload)
      (task_more e.payload) h
  where
    release_more :
        (v : Payload)
        → n ≤ length (put_release v (record st { audit = record_audit e st.audit })).tasks
    release_more (release_data r) = h
    release_more (device_data d) = h
    release_more (task_data t) = h
    release_more (raw s) = h

    device_more :
        (v : Payload)
        → n ≤ length (put_device v (record st { audit = record_audit e st.audit })).tasks
    device_more (release_data r) = h
    device_more (device_data d) = h
    device_more (task_data t) = h
    device_more (raw s) = h

    task_more :
        (v : Payload)
        → n ≤ length (put_task v (record st { audit = record_audit e st.audit })).tasks
    task_more (task_data t) = omega (arith, length-insert t.id t st.tasks)
    task_more (release_data r) = h
    task_more (device_data d) = h
    task_more (raw s) = h

Holds-Steady : (n : ℕ) → Steady (Holds n)
Holds-Steady n = record {
  keyed_tasks = λ st w. w.0.tasks_keyed;
  keyed_releases = λ st w. w.0.releases_keyed;
  keyed_devices = λ st w. w.0.devices_keyed;
  applied = λ e st w. (apply-WellFormed e st w.0, apply_more n e st w.1);
  task_written = λ key t st e w.
      (write_task-WellFormed key t st e w.0, omega (arith, w.1, length-replace key t st.tasks));
  release_written = λ key r st e w. (write_release-WellFormed key r st e w.0, w.1);
  device_written = λ key d st e w. (write_device-WellFormed key d st e w.0, w.1);
}

length-values : (m : Map Task) → length (values m) ≡ length m
length-values [] = refl
length-values (x ∷ m) = ap suc (length-values m)

module _ {S : Type 0} (ports : Ports S) where
  -- Over any store, a tick on a well-formed service, after fewer than 2^64 - 1 runs, returns,
  -- counts one run, leaves the service well formed, and loses no task: the number that it returns
  -- is never positive. Under every key at which the service held a task, it holds afterwards the
  -- outcome of a reaping: the task without its lease where that ran out and the task's release
  -- exists, and the same task otherwise; it holds no other tasks.
  pub tick_lem :
      (runs : ℕ) (s : Service S) (key : String)
      → WellFormed s.state
      → runs + 1 < 2 ^ 64
      → let (r, s') = tick ports runs s in
        (change : ℤ) × (r ≡ ok (change, runs + 1))
        × (change ≤ℤ pos 0)
        × WellFormed s'.state
        × (length s.state.tasks ≤ length s'.state.tasks)
        × (lookup key s'.state.tasks
            ≡ map (outcome s.state.releases (ports.clock s.reads)) (lookup key s.state.tasks))
  unfolding tick gets pure reap_expired ◌-ℤ◌ ◌>>=◌
  tick_lem runs s key well small =
      let n = length s.state.tasks in
      let (out, done, _, _, tasks) = reap_expired_lem ports s key well in
      let s' = (reap_expired_detailed ports s).1 in
      let kept : Holds n s'.state =
        rw done at
          ((reap_expired-Keeps (Steady-Laws ports (Holds-Steady n))).at s (well, omega arith)) in
      let fits : (runs + 1) % 2 ^ 64 ≡ runs + 1 = ground arith in
      rw (done, fits)
        (
          pos (length (values s.state.tasks)) -ℤ pos (length (values s'.state.tasks)),
          refl,
          ground (arith, length-values s.state.tasks, length-values s'.state.tasks, kept.1),
          kept.0,
          kept.1,
          tasks,
        )
