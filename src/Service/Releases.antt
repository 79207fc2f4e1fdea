-- ===== src/Service/Releases.antt =====
-- The commands of a release manager (internal/service/service.go, workflow.go).
use go_prod22_go_project.Prelude.{
  ℤ, String, Bool, true, ◌==◌, ◌||◌, ◌&&◌, not, if◌then◌else◌, List, [], ◌∷◌, pos, ◌+ℤ◌, int64,
  ltb_ℤ, string_eq,
}
use go_prod22_go_project.Domain.Status.{TaskStatus, ReleaseStatus, release_status_eq}
use go_prod22_go_project.Domain.Model.{Release, Task, Time, RollbackPolicy, zero_time}
use go_prod22_go_project.Domain.Errors.{Result, ok, err, not_found, conflict, message}
use go_prod22_go_project.Domain.Release
use go_prod22_go_project.Domain.Release.{can_pause, terminal}
use go_prod22_go_project.Events.{release_data, task_data}
use go_prod22_go_project.Service.Base.{
  Ports, Cmd, pure, lift, guard, find_release, clock_now, new_id, ◌>>=◌, ◌>>◌,
}
use go_prod22_go_project.Service.Core.{emit, save_release}

-- The parameters that `CreateRelease` refuses.
abbrev pub invalid_parameters : String → List String → ℤ → ℤ → ℤ → Bool
invalid_parameters v [] batch conc retries = true
invalid_parameters v (d ∷ ds) batch conc retries =
    v == "" || ltb_ℤ batch (pos 1) || ltb_ℤ conc (pos 1) || ltb_ℤ retries (pos 0)

abbrev pub queued_task : String → String → String → Time → Task
queued_task id release device now = record {
  id = id;
  release_id = release;
  device_id = device;
  status = TaskStatus.queued;
  lease_owner = "";
  lease_until = zero_time;
  attempts = pos 0;
  next_retry = zero_time;
  updated_at = now;
  error = "";
}

-- The branches of `SetRelease` up to the write of the status.
unfoldable pub next_status : Release → String → Result ReleaseStatus
next_status r action =
    if action == "pause"
    then if not (can_pause r) then err (message "release cannot pause") else ok ReleaseStatus.paused
    else if action == "resume"
    then if not (r.status == ReleaseStatus.paused)
      then err (message "release not paused")
      else ok ReleaseStatus.queued
    else if action == "rollback"
    then ok ReleaseStatus.rollback_pending
    else err (message "unknown release action")

module _ {S : Type 0} (ports : Ports S) where
  unfoldable pub create_tasks : String → List String → Cmd S (Unit {0})
  create_tasks release [] = pure tt
  create_tasks release (d ∷ ds) = do
    id ← new_id ports "task"
    now ← clock_now ports
    emit ports "task.created" id (task_data (queued_task id release d now))
    create_tasks release ds

  unfoldable pub create_release : String → List String → ℤ → ℤ → ℤ → RollbackPolicy → Cmd S Release
  create_release v dev batch conc retries rb = do
    guard (not (invalid_parameters v dev batch conc retries)) (message "invalid release parameters")
    id ← new_id ports "rel"
    created ← clock_now ports
    updated ← clock_now ports
    let r : Release = record {
      id = id;
      version = v;
      devices = dev;
      batch_size = batch;
      max_concurrent = conc;
      retry_limit = retries;
      pause_window = pos 0;
      rollback = rb;
      status = ReleaseStatus.queued;
      created_at = created;
      updated_at = updated;
      completed = pos 0;
      failed = pos 0;
    }
    emit ports "release.created" r.id (release_data r)
    create_tasks r.id dev
    pure r

  unfoldable pub set_release : String → String → Cmd S (Unit {0})
  set_release id action = do
    r ← find_release id (message "release not found")
    status ← lift (next_status r action)
    now ← clock_now ports
    save_release ports id id (record r { status = status; updated_at = now })

  unfoldable pub request_rollback : String → String → Cmd S (Unit {0})
  request_rollback id reason = do
    r ← find_release id not_found
    guard (not (terminal r && not (r.status == ReleaseStatus.completed))) conflict
    r' ← lift (Release.transition r ReleaseStatus.rollback_pending)
    now ← clock_now ports
    save_release ports id id (record r' { updated_at = now; failed = int64 (r'.failed +ℤ pos 1) })
