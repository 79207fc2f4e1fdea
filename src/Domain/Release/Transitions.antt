-- ===== src/Domain/Release/Transitions.antt =====
-- The transitions of a release.
use go_prod22_go_project.Prelude.{◌≡◌, refl, ◌↔◌, ◌⊎◌, true, arith, List, [], ◌∷◌}
use go_prod22_go_project.Domain.Status.{ReleaseStatus, release_status_eq}
use go_prod22_go_project.Domain.Model.{Release}
use go_prod22_go_project.Domain.Errors.{Result, ok, err, panic}
use go_prod22_go_project.Domain.Release.{transition, terminal, can_pause}

-- The statuses that a list of attempted transitions leads through; a refused one changes nothing.
abbrev settle : Release → Result Release → Release
settle r (ok u) = u
settle r (err e) = r
settle r panic = r

pub attempt : Release → List ReleaseStatus → Release
attempt r [] = r
attempt r (s ∷ ss) = attempt (settle r (transition r s)) ss

attempt_step : (r : Release) (s : ReleaseStatus) → terminal r ≡ true → settle r (transition r s) ≡ r
unfolding transition terminal
attempt_step r s h = ground arith

-- A release that is completed, rolled back or failed stays as it is under any list of attempts to
-- move it by `Release.Transition`.
pub attempt-terminal :
    (r : Release) (ss : List ReleaseStatus) → terminal r ≡ true → attempt r ss ≡ r
unfolding attempt
attempt-terminal r [] h = refl
attempt-terminal r (s ∷ ss) h = rw (attempt_step r s h) (attempt-terminal r ss h)

-- `CanPause` answers true exactly where `Transition` to paused succeeds, and where the release is
-- rolling back.
pub can_pause_iff :
    (r : Release)
    → (can_pause r ≡ true) ↔ (
        (transition r ReleaseStatus.paused ≡ ok (record r { status = ReleaseStatus.paused }))
        ⊎ (r.status ≡ ReleaseStatus.rollback_pending))
unfolding can_pause transition
can_pause_iff r = ((λ h. ground arith), (λ h. ground arith))
