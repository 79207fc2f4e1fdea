-- ===== src/Domain/Release.antt =====
-- The methods of a release (internal/domain/lifecycle.go, policy.go, model.go).
pub mod Transitions
pub mod Capacity
pub mod Counts
use go_prod22_go_project.Prelude.{
  ℕ, suc, ℤ, pos, ◌-ℤ◌, int64, ltb_ℤ, String, Bool, true, false, ◌==◌, ◌||◌, ◌&&◌, not,
  if◌then◌else◌, List, [], ◌∷◌, length, count, string_eq, int_eq,
}
use go_prod22_go_project.Domain.Status.{
  ReleaseStatus, TaskStatus, task_status_eq, release_status_eq,
}
use go_prod22_go_project.Domain.Model.{Task, Release, Time, is_zero, before, after}
use go_prod22_go_project.Domain.Errors.{Result, ok, err, invalid_release_transition}

unfoldable pub can_pause : Release → Bool
can_pause r =
    not (r.status == ReleaseStatus.completed)
    && not (r.status == ReleaseStatus.rolled_back)
    && not (r.status == ReleaseStatus.failed)

pub record BatchWindow : Type 0 where
  pub start : Time
  pub stop : Time

unfoldable pub is_open : BatchWindow → Time → Bool
is_open w now =
    is_zero w.start
    || ((now == w.start || after now w.start) && (is_zero w.stop || before now w.stop))

-- The tasks that `Capacity` counts as running.
abbrev pub counts_active : Release → Task → Bool
counts_active r t =
    t.release_id == r.id
    && (t.status == TaskStatus.leased
        || t.status == TaskStatus.installing
        || t.status == TaskStatus.awaiting)

abbrev pub left_capacity : ℤ → ℤ → ℤ
left_capacity left batch_size =
    if ltb_ℤ left (pos 0) then pos 0 else if ltb_ℤ batch_size left then batch_size else left

unfoldable pub capacity : Release → List Task → ℤ
capacity r tasks =
    left_capacity (int64 (r.max_concurrent -ℤ pos (count (counts_active r) tasks))) r.batch_size

unfoldable pub should_rollback : Release → Bool
should_rollback r = r.rollback.auto && ltb_ℤ r.rollback.max_failures r.failed

unfoldable pub terminal : Release → Bool
terminal r =
    r.status == ReleaseStatus.completed
    || r.status == ReleaseStatus.rolled_back
    || r.status == ReleaseStatus.failed

-- The cases of the `switch`; the statuses without a case have no way out.
abbrev release_edge : ReleaseStatus → ReleaseStatus → Bool
release_edge ReleaseStatus.queued to =
    to == ReleaseStatus.preflight
    || to == ReleaseStatus.paused
    || to == ReleaseStatus.rollback_pending
    || to == ReleaseStatus.failed
release_edge ReleaseStatus.preflight to =
    to == ReleaseStatus.installing
    || to == ReleaseStatus.paused
    || to == ReleaseStatus.rollback_pending
    || to == ReleaseStatus.failed
release_edge ReleaseStatus.installing to =
    to == ReleaseStatus.awaiting
    || to == ReleaseStatus.paused
    || to == ReleaseStatus.rollback_pending
    || to == ReleaseStatus.failed
    || to == ReleaseStatus.completed
release_edge ReleaseStatus.awaiting to =
    to == ReleaseStatus.installing
    || to == ReleaseStatus.paused
    || to == ReleaseStatus.rollback_pending
    || to == ReleaseStatus.failed
    || to == ReleaseStatus.completed
release_edge ReleaseStatus.paused to =
    to == ReleaseStatus.queued || to == ReleaseStatus.rollback_pending || to == ReleaseStatus.failed
release_edge ReleaseStatus.rollback_pending to =
    to == ReleaseStatus.rolled_back || to == ReleaseStatus.failed
release_edge _ to = false

unfoldable pub valid_release_transition : ReleaseStatus → ReleaseStatus → Bool
valid_release_transition from to = if from == to then true else release_edge from to

unfoldable pub transition : Release → ReleaseStatus → Result Release
unfolding valid_release_transition
transition r to =
    if not (valid_release_transition r.status to)
    then err (invalid_release_transition r.status to)
    else ok (record r { status = to })

unfoldable pub active : Release → List Task → ℤ
unfolding capacity
active r tasks = int64 (r.max_concurrent -ℤ capacity r tasks)

unfoldable pub ready : Release → List Task → Time → Bool
unfolding capacity terminal
ready r tasks now =
    if terminal r || r.status == ReleaseStatus.paused
    then false
    else ltb_ℤ (pos 0) (capacity r tasks)

pub record Recount : Type 0 where
  pub completed : ℕ
  pub failed : ℕ
  pub pending : ℕ

abbrev tally : TaskStatus → Recount → Recount
tally TaskStatus.completed n = record n { completed = suc n.completed }
tally TaskStatus.failed n = record n { failed = suc n.failed }
tally _ n = record n { pending = suc n.pending }

unfoldable pub recount : Release → List Task → Recount
recount r [] = record { completed = 0; failed = 0; pending = 0 }
recount r (t ∷ ts) =
    let rest = recount r ts in if not (t.release_id == r.id) then rest else tally t.status rest

unfoldable pub remaining : Release → List Task → ℤ
unfolding recount
remaining r tasks =
    let left = pos (length r.devices) -ℤ pos (recount r tasks).completed in
    if ltb_ℤ left (pos 0) then pos 0 else left

unfoldable pub has_capacity : Release → List Task → Bool
unfolding capacity
has_capacity r tasks = ltb_ℤ (pos 0) (capacity r tasks)

unfoldable pub is_paused : Release → Bool
is_paused r = r.status == ReleaseStatus.paused

unfoldable pub is_rollback_pending : Release → Bool
is_rollback_pending r = r.status == ReleaseStatus.rollback_pending

unfoldable pub is_queued : Release → Bool
is_queued r = r.status == ReleaseStatus.queued
