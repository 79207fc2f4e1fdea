-- ===== src/Service/Preserved/Commands.antt =====
-- All commands together.
use go_prod22_go_project.Prelude.{String, true, ◌≡◌, refl}
use go_prod22_go_project.Domain.Model.{Release}
use go_prod22_go_project.Service.Base.{Ports, Service, Cmd, write_release}
use go_prod22_go_project.Service.Commands.{
  Command, create_release, set_release, request_rollback, queue_rollback, register_device,
  device_heartbeat, claim, claim_rollback, update_task, start_task, reject_task, report_progress,
  report_preflight, confirm_install, retry_task, renew_lease, fail_task, complete_rollback,
  reap_expired, is_direct, drop, exec,
}
use go_prod22_go_project.Service.Keeps.{Keeps, Keeps-bind, Keeps-pure}
use go_prod22_go_project.Service.Keeps.Laws.{Laws}
use go_prod22_go_project.Service.Preserved.Tasks
use go_prod22_go_project.Service.Preserved.Releases
use go_prod22_go_project.Service.Preserved.Claims
use go_prod22_go_project.Service.Preserved.Rollback

module _ {S : Type 0} {ports : Ports S} {P B : Service S → Type 0} (laws : Laws ports P B) where
  drop-Keeps : {A : Type 0} (m : Cmd S A) → Keeps P B m → Keeps P B (drop ports m)
  drop-Keeps m km = Keeps-bind _ _ km λ _. Keeps-pure tt

  -- Every direct command keeps every invariant that satisfies the laws.
  pub exec-Keeps : (c : Command) → is_direct c ≡ true → Keeps P B (exec ports c)
  unfolding exec
  exec-Keeps (create_release v ds batch conc retries rb) d =
      drop-Keeps _ (Releases.create_release-Keeps laws v ds batch conc retries rb)
  exec-Keeps (set_release id action) d = Releases.set_release-Keeps laws id action
  exec-Keeps (request_rollback id reason) d = Releases.request_rollback-Keeps laws id reason
  exec-Keeps (register_device id fw caps) d =
      drop-Keeps _ (Releases.register_device-Keeps laws id fw caps)
  exec-Keeps (device_heartbeat id online) d = Releases.device_heartbeat-Keeps laws id online
  exec-Keeps (claim device agent ttl) d =
      drop-Keeps _ (Claims.claim_with_ttl-Keeps laws device agent ttl)
  exec-Keeps (claim_rollback device agent) d =
      drop-Keeps _ (Rollback.claim_rollback-Keeps laws device agent)
  exec-Keeps (update_task id action reason) d =
      drop-Keeps _ (Tasks.update_task-Keeps laws id action reason)
  exec-Keeps (start_task id agent) d = Tasks.start_task-Keeps laws id agent
  exec-Keeps (reject_task id agent reason) d = Tasks.reject_task-Keeps laws id agent reason
  exec-Keeps (report_progress id agent percent detail) d =
      Tasks.report_progress-Keeps laws id agent percent detail
  exec-Keeps (report_preflight id passed detail) d =
      Tasks.report_preflight-Keeps laws id passed detail
  exec-Keeps (confirm_install id agent) d = Tasks.confirm_install-Keeps laws id agent
  exec-Keeps (retry_task id) d = Tasks.retry_task-Keeps laws id
  exec-Keeps (renew_lease id agent ttl) d = drop-Keeps _ (Tasks.renew_lease-Keeps laws id agent ttl)
  exec-Keeps (fail_task id agent reason retryable) d =
      drop-Keeps _ (Tasks.fail_task-Keeps laws id agent reason retryable)
  exec-Keeps (complete_rollback id agent) d = Rollback.complete_rollback-Keeps laws id agent
  exec-Keeps reap_expired d = Rollback.reap_expired-Keeps laws
  exec-Keeps (queue_rollback id reason) d = cc

  -- With a law for the bare write, every command does.
  pub exec_all-Keeps :
      ((key : String) (r : Release) → r.id ≡ key → Keeps P B (write_release key r))
      → (c : Command) → Keeps P B (exec ports c)
  unfolding exec
  exec_all-Keeps write (queue_rollback id reason) =
      drop-Keeps _ (Rollback.queue_rollback-Keeps laws write id reason)
  exec_all-Keeps write c = exec-Keeps c (refl)
