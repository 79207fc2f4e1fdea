-- ===== src/Service/Preserved/Claims.antt =====
-- Claims keep every invariant that satisfies the laws.
use go_prod22_go_project.Prelude.{String, ◌≡◌, ◌∙◌, arith}
use go_prod22_go_project.Domain.Status.{ReleaseStatus}
use go_prod22_go_project.Domain.Model.{Release, Task, Time, Duration}
use go_prod22_go_project.Domain.Errors.{ok}
use go_prod22_go_project.Domain.Task.{lease}
use go_prod22_go_project.Service.Base.{Ports, Service}
use go_prod22_go_project.Service.Dispatch.{enter_preflight, claim_locked, claim_with_ttl, claim}
use go_prod22_go_project.Service.Keeps.{
  Keeps, Keeps-bind, Keeps-lift_bind, Keeps-guard, Keeps-if, Keeps-pure, Keeps-gets, Keeps-or_raise,
}
use go_prod22_go_project.Service.Keeps.Laws.{Laws}
use go_prod22_go_project.Service.Preserved.Rules.{
  clock_now-Keeps, find_release_bind-Keeps, find_device_bind-Keeps, release_step_bind-Keeps,
  save_task-Keeps,
}

lease-id :
    (t u : Task) (agent : String) (now : Time) (ttl : Duration)
    → lease t agent now ttl ≡ ok u
    → u.id ≡ t.id
unfolding lease
lease-id t u agent now ttl h = ground arith

module _ {S : Type 0} {ports : Ports S} {P B : Service S → Type 0} (laws : Laws ports P B) where
  enter_preflight-Keeps :
      (key : String) (r : Release) → r.id ≡ key → Keeps P B (enter_preflight ports key r)
  unfolding enter_preflight
  enter_preflight-Keeps key r k = Keeps-if _ _ _ (Keeps-pure tt) (
      release_step_bind-Keeps laws r ReleaseStatus.preflight _
        λ u e. Keeps-bind _ _ (clock_now-Keeps laws) λ now. laws.save_release_law key _ _ (e ∙ k))

  claim_locked-Keeps :
      (device agent : String) (ttl : Duration) → Keeps P B (claim_locked ports device agent ttl)
  unfolding claim_locked
  claim_locked-Keeps device agent ttl = Keeps-bind _ _ (clock_now-Keeps laws) λ now.
      Keeps-bind _ _ (Keeps-gets _) λ items. Keeps-bind _ _ (Keeps-or_raise _ _) λ t.
        find_release_bind-Keeps laws t.release_id _ _ λ r k.
          Keeps-bind _ _ (Keeps-gets _) λ decision. Keeps-bind _ _ (Keeps-guard _ _) λ _.
            Keeps-bind _ _ (clock_now-Keeps laws) λ leased. Keeps-lift_bind _ _ laws.broken λ u e.
              Keeps-bind _ _ (save_task-Keeps laws _ _ _ (lease-id t u agent leased ttl e))
                λ _. Keeps-bind _ _ (enter_preflight-Keeps _ r k) λ _. Keeps-pure _

  pub claim_with_ttl-Keeps :
      (device agent : String) (ttl : Duration) → Keeps P B (claim_with_ttl ports device agent ttl)
  unfolding claim_with_ttl
  claim_with_ttl-Keeps device agent ttl = Keeps-bind _ _ (Keeps-guard _ _) λ _.
      Keeps-bind _ _ (Keeps-guard _ _) λ _.
        find_device_bind-Keeps laws device _ _
          λ d _. Keeps-bind _ _ (Keeps-guard _ _) λ _. claim_locked-Keeps device agent ttl

  pub claim-Keeps : (device agent : String) → Keeps P B (claim ports device agent)
  unfolding claim
  claim-Keeps device agent = claim_with_ttl-Keeps device agent _
