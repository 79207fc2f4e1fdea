-- ===== src/Domain/Status.antt =====
-- The states of a release and of a task (internal/domain/status.go).
use go_prod22_go_project.Prelude.{ℕ, ◌≡◌, true, Eq, eqb, arith, ap}

pub data ReleaseStatus : Type 0 where
  queued preflight installing awaiting completed paused : ReleaseStatus
  rollback_pending rolled_back failed : ReleaseStatus

pub data TaskStatus : Type 0 where
  queued leased installing awaiting completed rejected failed : TaskStatus
  rollback_queued rolling_back rolled_back : TaskStatus

-- The place of a state in the list of constants, by which states are compared.
abbrev pub release_rank : ReleaseStatus → ℕ
release_rank ReleaseStatus.queued = 0
release_rank ReleaseStatus.preflight = 1
release_rank ReleaseStatus.installing = 2
release_rank ReleaseStatus.awaiting = 3
release_rank ReleaseStatus.completed = 4
release_rank ReleaseStatus.paused = 5
release_rank ReleaseStatus.rollback_pending = 6
release_rank ReleaseStatus.rolled_back = 7
release_rank ReleaseStatus.failed = 8

abbrev pub task_rank : TaskStatus → ℕ
task_rank TaskStatus.queued = 0
task_rank TaskStatus.leased = 1
task_rank TaskStatus.installing = 2
task_rank TaskStatus.awaiting = 3
task_rank TaskStatus.completed = 4
task_rank TaskStatus.rejected = 5
task_rank TaskStatus.failed = 6
task_rank TaskStatus.rollback_queued = 7
task_rank TaskStatus.rolling_back = 8
task_rank TaskStatus.rolled_back = 9

pub release_rank_injective :
    (a b : ReleaseStatus) → eqb (release_rank a) (release_rank b) ≡ true → a ≡ b
release_rank_injective a b h = ground arith

pub task_rank_injective : (a b : TaskStatus) → eqb (task_rank a) (task_rank b) ≡ true → a ≡ b
task_rank_injective a b h = ground arith

pub release_rank_refl : (a b : ReleaseStatus) → a ≡ b → eqb (release_rank a) (release_rank b) ≡ true
release_rank_refl a b h = ground (arith, ap release_rank h)

pub task_rank_refl : (a b : TaskStatus) → a ≡ b → eqb (task_rank a) (task_rank b) ≡ true
task_rank_refl a b h = ground (arith, ap task_rank h)

instance abbrev pub release_status_eq : Eq ReleaseStatus
release_status_eq = record {
  equals = λ a b. eqb (release_rank a) (release_rank b);
  equals_iff = λ a b. (release_rank_injective a b, release_rank_refl a b);
}

instance abbrev pub task_status_eq : Eq TaskStatus
task_status_eq = record {
  equals = λ a b. eqb (task_rank a) (task_rank b);
  equals_iff = λ a b. (task_rank_injective a b, task_rank_refl a b);
}
