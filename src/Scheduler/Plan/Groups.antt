-- ===== src/Scheduler/Plan/Groups.antt =====
-- The groups of a plan, and the counts of the scheduler.
use go_prod22_go_project.Prelude.{
  ℕ, append-nil, append_assoc, sym, String, some, Bool, ◌==◌, ◌||◌, ◌≡◌, refl, ◌∙◌, ap, List, [],
  ◌∷◌, ◌++◌, keep, count, arith, string_eq, eq_iff, Bool-cases, inl, inr,
}
use go_prod22_go_project.Prelude.Map.{Map, lookup, insert, lookup-insert}
use go_prod22_go_project.Domain.Status.{TaskStatus, task_status_eq}
use go_prod22_go_project.Domain.Model.{Task}
use go_prod22_go_project.Scheduler.Plan.{PlanItem, group_of, group_into, group_by_device, status}

abbrev is_for : String → PlanItem → Bool
is_for device p = p.device_id == device

group_into_lem :
    (device : String) (out : Map (List PlanItem)) (plan : List PlanItem)
    → group_of (lookup device (group_into out plan))
      ≡ group_of (lookup device out) ++ keep (is_for device) plan
unfolding group_into
group_into_lem device out [] = sym (append-nil (group_of (lookup device out)))
group_into_lem device out (p ∷ ps) =
    let next = insert p.device_id (group_of (lookup p.device_id out) ++ p ∷ []) out in
    let rest = group_into_lem device next ps in
    let here = lookup-insert p.device_id device (group_of (lookup p.device_id out) ++ p ∷ []) out in
    elim (Bool-cases (p.device_id == device)) [
      | inl e ↦
          let same : p.device_id ≡ device = (eq_iff p.device_id device).0 e in
          let hit : lookup device next ≡ some (group_of (lookup p.device_id out) ++ p ∷ []) =
            rw e at here in
          let grown : group_of (lookup device next) ≡ group_of (lookup device out) ++ p ∷ [] =
            ap group_of hit ∙ ap (λ d. group_of (lookup d out) ++ p ∷ []) same in
          rw e (
            rest
            ∙ ap (λ xs. xs ++ keep (is_for device) ps) grown
            ∙ append_assoc (group_of (lookup device out)) (p ∷ []) (keep (is_for device) ps))
      | inr e ↦
          let miss : lookup device next ≡ lookup device out = rw e at here in
          rw e (rest ∙ ap (λ o. group_of o ++ keep (is_for device) ps) miss)
    ]

-- The group of each device holds the plan's items for the device, all of them and in the plan's
-- order.
pub group_by_device_lem :
    (device : String) (plan : List PlanItem)
    → group_of (lookup device (group_by_device plan)) ≡ keep (λ p. p.device_id == device) plan
unfolding group_by_device lookup
group_by_device_lem device plan = group_into_lem device [] plan

abbrev pub is_waiting : Task → Bool
is_waiting t = t.status == TaskStatus.queued || t.status == TaskStatus.rejected

abbrev pub has_status : TaskStatus → Task → Bool
has_status s t = t.status == s

-- `Status` passes on the number of runs, and counts under each name the tasks of that status; under
-- the queued ones it counts the queued and the rejected tasks.
pub status_lem :
    (runs : ℕ) (tasks : List Task)
    → let s = status runs tasks in
      (s.runs ≡ runs)
      × (s.queued ≡ count is_waiting tasks)
      × (s.leased ≡ count (has_status TaskStatus.leased) tasks)
      × (s.installing ≡ count (has_status TaskStatus.installing) tasks)
      × (s.awaiting ≡ count (has_status TaskStatus.awaiting) tasks)
      × (s.completed ≡ count (has_status TaskStatus.completed) tasks)
      × (s.failed ≡ count (has_status TaskStatus.failed) tasks)
unfolding status
status_lem runs [] = (refl, refl, refl, refl, refl, refl, refl)
status_lem runs (t ∷ ts) = let rest = status_lem runs ts in ground (arith, rest)
