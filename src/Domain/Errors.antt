-- ===== src/Domain/Errors.antt =====
-- The errors of internal/domain/lifecycle.go and internal/service, and how a call ends.
use go_prod22_go_project.Prelude.{String}
use go_prod22_go_project.Domain.Status.{ReleaseStatus, TaskStatus}

-- An error value. `invalid_device` carries the id that its text quotes; `message` is an `errors.New`
-- with its text.
pub data Error : Type 0 where
  invalid_task_transition : (from to : TaskStatus) → Error
  cannot_be_leased : (from : TaskStatus) → Error
  invalid_release_transition : (from to : ReleaseStatus) → Error
  lease_expired lease_owner : Error
  not_found conflict no_task : Error
  invalid_device : String → Error
  message : String → Error

-- A call returns, returns an error, or panics.
pub data Result {ℓ} (A : Type ℓ) : Type ℓ where
  ok : A → Result A
  err : Error → Result A
  panic : Result A
