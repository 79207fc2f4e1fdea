-- ===== src/Domain/State/Graph.antt =====
-- The paths of a task's states that `ValidTransition` allows.
use go_prod22_go_project.Prelude.{
  ◌≡◌, ◌↔◌, ◌⊎◌, ◌==◌, ◌||◌, Bool, true, false, refl, inl, inr, Bool-cases, arith,
}
use go_prod22_go_project.Domain.Status.{TaskStatus, task_status_eq}
use go_prod22_go_project.Domain.State.{valid_transition}

-- Any number of transitions, one after the other.
infix 40 ◌⟶*◌
pub data ◌⟶*◌ (s : TaskStatus) : TaskStatus → Type 0 where
  here : s ⟶* s
  then : {t u : TaskStatus} → s ⟶* t → valid_transition t u ≡ true → s ⟶* u

-- No device has begun to install the task.
abbrev is_unstarted : TaskStatus → Bool
is_unstarted s = s == TaskStatus.queued || s == TaskStatus.leased || s == TaskStatus.rejected

started_stays :
    (s t : TaskStatus)
    → valid_transition s t ≡ true
    → is_unstarted s ≡ false
    → is_unstarted t ≡ false
unfolding valid_transition
started_stays s t h e = ground arith

started_path : {s t : TaskStatus} → s ⟶* t → is_unstarted s ≡ false → is_unstarted t ≡ false
started_path here h = h
started_path (then {t} {u} r e) h = started_stays t u e (started_path r h)

from_queued : (t : TaskStatus) → TaskStatus.queued ⟶* t
unfolding valid_transition
from_queued t =
    let q = TaskStatus.queued in
    let leased : q ⟶* TaskStatus.leased = then {t = q} here refl in
    let installing : q ⟶* TaskStatus.installing = then {t = TaskStatus.leased} leased refl in
    let failed : q ⟶* TaskStatus.failed = then {t = TaskStatus.installing} installing refl in
    let waiting : q ⟶* TaskStatus.rollback_queued = then {t = TaskStatus.failed} failed refl in
    let rolling : q ⟶* TaskStatus.rolling_back =
      then {t = TaskStatus.rollback_queued} waiting refl in
    elim t as (λ k. q ⟶* k) [
      | TaskStatus.queued ↦ here
      | TaskStatus.leased ↦ leased
      | TaskStatus.installing ↦ installing
      | TaskStatus.awaiting ↦ then {t = TaskStatus.installing} installing refl
      | TaskStatus.completed ↦ then {t = TaskStatus.installing} installing refl
      | TaskStatus.rejected ↦ then {t = TaskStatus.leased} leased refl
      | TaskStatus.failed ↦ failed
      | TaskStatus.rollback_queued ↦ waiting
      | TaskStatus.rolling_back ↦ rolling
      | TaskStatus.rolled_back ↦ then {t = TaskStatus.rolling_back} rolling refl
    ]

to_queued : (s : TaskStatus) → is_unstarted s ≡ true → s ⟶* TaskStatus.queued
unfolding valid_transition
to_queued TaskStatus.queued h = here
to_queued TaskStatus.leased h =
    then {t = TaskStatus.rejected} (then {t = TaskStatus.leased} here refl) refl
to_queued TaskStatus.rejected h = then {t = TaskStatus.rejected} here refl
to_queued TaskStatus.installing h = cc
to_queued TaskStatus.awaiting h = cc
to_queued TaskStatus.completed h = cc
to_queued TaskStatus.failed h = cc
to_queued TaskStatus.rollback_queued h = cc
to_queued TaskStatus.rolling_back h = cc
to_queued TaskStatus.rolled_back h = cc

-- The transitions that `ValidTransition` allows lead, in any number of steps, from `queued` to
-- every state, and back to `queued` from exactly the states `queued`, `leased` and `rejected`: once
-- the installation of a task has begun, none of them leads back.
pub requeue_iff :
    (s : TaskStatus)
    → (TaskStatus.queued ⟶* s)
      × ((s ⟶* TaskStatus.queued)
          ↔ ((s ≡ TaskStatus.queued) ⊎ (s ≡ TaskStatus.leased) ⊎ (s ≡ TaskStatus.rejected)))
requeue_iff s = (
  from_queued s,
  (
    (λ r. elim (Bool-cases (is_unstarted s)) [
      | inl e ↦ ground arith
      | inr e ↦ cc (started_path r e)
    ]),
    (λ h. to_queued s (ground arith)),
  ),
)
