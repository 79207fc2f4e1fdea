-- ===== src/Service/Commands.antt =====
-- The commands as data, and runs of them.
use go_prod22_go_project.Prelude.{ℤ, String, Bool, true, false, List, [], ◌∷◌, ◌≢◌}
use go_prod22_go_project.Domain.Model.{Duration, RollbackPolicy}
use go_prod22_go_project.Domain.Errors.{panic}
use go_prod22_go_project.Service.Base.{Ports, Service, Cmd, pure, ◌>>=◌}
use go_prod22_go_project.Service.Releases
use go_prod22_go_project.Service.Devices
use go_prod22_go_project.Service.Tasks
use go_prod22_go_project.Service.Dispatch
use go_prod22_go_project.Service.Rollback

pub data Command : Type 0 where
  create_release :
      (version : String) (devices : List String) (batch conc retries : ℤ) (rb : RollbackPolicy)
      → Command
  set_release : (id action : String) → Command
  request_rollback : (id reason : String) → Command
  queue_rollback : (id reason : String) → Command
  register_device : (id fw : String) (caps : List String) → Command
  device_heartbeat : (id : String) (online : Bool) → Command
  claim : (device agent : String) (ttl : Duration) → Command
  claim_rollback : (device agent : String) → Command
  update_task : (id action reason : String) → Command
  start_task : (id agent : String) → Command
  reject_task : (id agent reason : String) → Command
  report_progress : (id agent : String) (percent : ℤ) (detail : String) → Command
  report_preflight : (id : String) (passed : Bool) (detail : String) → Command
  confirm_install : (id agent : String) → Command
  retry_task : (id : String) → Command
  renew_lease : (id agent : String) (ttl : Duration) → Command
  fail_task : (id agent reason : String) (retryable : Bool) → Command
  complete_rollback : (id agent : String) → Command
  reap_expired : Command

-- Commands whose writes each come with their event. `QueueRollback` writes to the release first.
abbrev pub is_direct : Command → Bool
is_direct (queue_rollback id reason) = false
is_direct _ = true

module _ {S : Type 0} (ports : Ports S) where
  abbrev pub drop : {A : Type 0} → Cmd S A → Cmd S (Unit {0})
  drop m = m >>= λ _. pure tt

  unfoldable pub exec : Command → Cmd S (Unit {0})
  exec (create_release v ds batch conc retries rb) =
      drop (Releases.create_release ports v ds batch conc retries rb)
  exec (set_release id action) = Releases.set_release ports id action
  exec (request_rollback id reason) = Releases.request_rollback ports id reason
  exec (queue_rollback id reason) = drop (Rollback.queue_rollback ports id reason)
  exec (register_device id fw caps) = drop (Devices.register_device ports id fw caps)
  exec (device_heartbeat id online) = Devices.device_heartbeat ports id online
  exec (claim device agent ttl) = drop (Dispatch.claim_with_ttl ports device agent ttl)
  exec (claim_rollback device agent) = drop (Rollback.claim_rollback ports device agent)
  exec (update_task id action reason) = drop (Tasks.update_task ports id action reason)
  exec (start_task id agent) = Tasks.start_task ports id agent
  exec (reject_task id agent reason) = Tasks.reject_task ports id agent reason
  exec (report_progress id agent percent detail) =
      Tasks.report_progress ports id agent percent detail
  exec (report_preflight id passed detail) = Tasks.report_preflight ports id passed detail
  exec (confirm_install id agent) = Tasks.confirm_install ports id agent
  exec (retry_task id) = Tasks.retry_task ports id
  exec (renew_lease id agent ttl) = drop (Tasks.renew_lease ports id agent ttl)
  exec (fail_task id agent reason retryable) =
      drop (Tasks.fail_task ports id agent reason retryable)
  exec (complete_rollback id agent) = Rollback.complete_rollback ports id agent
  exec reap_expired = Rollback.reap_expired ports

  -- What the service is after a list of commands, whatever each returned.
  unfoldable pub run : List Command → Service S → Service S
  run [] s = s
  run (c ∷ cs) s = run cs (exec c s).1

  -- No command of the list panics.
  abbrev pub NoPanic : List Command → Service S → Type 0
  NoPanic [] s = Unit {0}
  NoPanic (c ∷ cs) s = ((exec c s).0 ≢ panic) × NoPanic cs (exec c s).1
