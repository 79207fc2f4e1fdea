-- ===== src/Domain/Release/Counts.antt =====
-- What `Recount` counts.
use go_prod22_go_project.Prelude.{
  ◌+◌, ◌≡◌, refl, Bool, false, arith, ◌==◌, List, [], ◌∷◌, count, if◌then◌else◌, string_eq,
}
use go_prod22_go_project.Domain.Status.{TaskStatus, task_status_eq}
use go_prod22_go_project.Domain.Model.{Task, Release}
use go_prod22_go_project.Domain.Release.{recount}

-- A task of the release, and one of them in a status.
abbrev pub own : Release → Task → Bool
own r t = t.release_id == r.id

abbrev pub own_in : Release → TaskStatus → Task → Bool
own_in r s t = if own r t then t.status == s else false

-- `Recount` counts the release's completed tasks, its failed tasks and the rest of its tasks: each
-- of its tasks once, and no other.
pub recount_lem :
    (r : Release) (tasks : List Task)
    → let n = recount r tasks in
      (n.completed ≡ count (own_in r TaskStatus.completed) tasks)
      × (n.failed ≡ count (own_in r TaskStatus.failed) tasks)
      × (n.completed + n.failed + n.pending ≡ count (own r) tasks)
unfolding recount
recount_lem r [] = (refl, refl, omega arith)
recount_lem r (t ∷ ts) = ground (arith, recount_lem r ts)
