-- ===== src/Service/Preserved/Releases.antt =====
-- The release manager's commands and the devices' keep every invariant that satisfies the laws.
use go_prod22_go_project.Prelude.{ℤ, String, Bool, List, [], ◌∷◌, ◌∙◌}
use go_prod22_go_project.Domain.Status.{ReleaseStatus}
use go_prod22_go_project.Domain.Model.{RollbackPolicy}
use go_prod22_go_project.Service.Base.{Ports, Service}
use go_prod22_go_project.Service.Releases.{
  create_tasks, create_release, set_release, request_rollback,
}
use go_prod22_go_project.Service.Devices.{register_device, device_heartbeat}
use go_prod22_go_project.Service.Keeps.{Keeps, Keeps-bind, Keeps-guard, Keeps-pure}
use go_prod22_go_project.Service.Keeps.Laws.{Laws}
use go_prod22_go_project.Service.Preserved.Rules.{
  clock_now-Keeps, new_id-Keeps, lift-Keeps, find_release_bind-Keeps, find_device_bind-Keeps,
  release_step_bind-Keeps,
}

module _ {S : Type 0} {ports : Ports S} {P B : Service S → Type 0} (laws : Laws ports P B) where
  create_tasks-Keeps :
      (release : String) (ds : List String) → Keeps P B (create_tasks ports release ds)
  unfolding create_tasks
  create_tasks-Keeps release [] = Keeps-pure tt
  create_tasks-Keeps release (d ∷ ds) = Keeps-bind _ _ (new_id-Keeps laws _) λ id.
      Keeps-bind _ _ (clock_now-Keeps laws)
        λ now. Keeps-bind _ _ (laws.new_task_law _ _) λ _. create_tasks-Keeps release ds

  pub create_release-Keeps :
      (v : String) (dev : List String) (batch conc retries : ℤ) (rb : RollbackPolicy)
      → Keeps P B (create_release ports v dev batch conc retries rb)
  unfolding create_release
  create_release-Keeps v dev batch conc retries rb = Keeps-bind _ _ (Keeps-guard _ _) λ _.
      Keeps-bind _ _ (new_id-Keeps laws _) λ id. Keeps-bind _ _ (clock_now-Keeps laws) λ created.
        Keeps-bind _ _ (clock_now-Keeps laws) λ updated.
          Keeps-bind _ _ (laws.new_release_law _ _)
            λ _. Keeps-bind _ _ (create_tasks-Keeps _ dev) λ _. Keeps-pure _

  pub set_release-Keeps : (id action : String) → Keeps P B (set_release ports id action)
  unfolding set_release
  set_release-Keeps id action = find_release_bind-Keeps laws id _ _ λ r k.
      Keeps-bind _ _ (lift-Keeps laws _)
        λ status. Keeps-bind _ _ (clock_now-Keeps laws) λ now. laws.save_release_law id id _ k

  pub request_rollback-Keeps : (id reason : String) → Keeps P B (request_rollback ports id reason)
  unfolding request_rollback
  request_rollback-Keeps id reason = find_release_bind-Keeps laws id _ _ λ r k.
      Keeps-bind _ _ (Keeps-guard _ _) λ _.
        release_step_bind-Keeps laws r ReleaseStatus.rollback_pending _
          λ u e. Keeps-bind _ _ (clock_now-Keeps laws) λ now. laws.save_release_law id id _ (e ∙ k)

  pub register_device-Keeps :
      (id fw : String) (caps : List String) → Keeps P B (register_device ports id fw caps)
  unfolding register_device
  register_device-Keeps id fw caps = Keeps-bind _ _ (Keeps-guard _ _) λ _.
      Keeps-bind _ _ (clock_now-Keeps laws) λ registered.
        Keeps-bind _ _ (clock_now-Keeps laws)
          λ seen. Keeps-bind _ _ (laws.new_device_law _ _) λ _. Keeps-pure _

  pub device_heartbeat-Keeps :
      (id : String) (online : Bool) → Keeps P B (device_heartbeat ports id online)
  unfolding device_heartbeat
  device_heartbeat-Keeps id online =
      find_device_bind-Keeps laws id _ _
        λ d k. Keeps-bind _ _ (clock_now-Keeps laws) λ now. laws.save_device_law id id _ k
