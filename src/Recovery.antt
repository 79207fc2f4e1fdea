-- ===== src/Recovery.antt =====
-- Checks of a loaded state (internal/recovery/check.go, report.go).
pub mod Soundness
use Prim.Native.String.{◌++◌ as join}
use go_prod22_go_project.Prelude.{
  ℕ, String, Option, none, some, Bool, true, false, ◌==◌, ◌||◌, if◌then◌else◌, List, [], ◌∷◌, ◌++◌,
  length, count, eqb, sort_by, string_eq,
}
use go_prod22_go_project.Prelude.Text.{str_ltb}
use go_prod22_go_project.Prelude.Map.{Map, lookup, values}
use go_prod22_go_project.Domain.Status.{ReleaseStatus, release_status_eq}
use go_prod22_go_project.Domain.Model.{Release, Device, Task}
use go_prod22_go_project.Domain.Errors.{Error, Result, ok, err, message}
use go_prod22_go_project.Domain.Release.{terminal}
use go_prod22_go_project.Store.{State}

abbrev pub is_found : {A : Type 0} → Option A → Bool
is_found none = false
is_found (some a) = true

abbrev about : String → String → String
about id what = join "task " (join id what)

unfoldable pub check_tasks : Map Release → Map Task → Result (Unit {0})
check_tasks releases [] = ok tt
check_tasks releases ((id, t) ∷ m) =
    let rest = check_tasks releases m in
    if t.release_id == "" || t.device_id == ""
    then err (message (about id " has missing relation"))
    else if is_found (lookup t.release_id releases)
    then rest
    else err (message (about id " release missing"))

unfoldable pub check : State → Result (Unit {0})
unfolding check_tasks
check st = check_tasks st.releases st.tasks

pub record Report : Type 0 where
  pub releases : ℕ
  pub devices : ℕ
  pub tasks : ℕ
  pub terminal : ℕ
  pub active : ℕ
  pub orphaned : ℕ
  pub errors : List String

abbrev pub is_under_way : Release → Bool
is_under_way r =
    r.status == ReleaseStatus.installing
    || r.status == ReleaseStatus.preflight
    || r.status == ReleaseStatus.awaiting

unfoldable pub release_errors : Map Release → List String
release_errors [] = []
release_errors ((id, r) ∷ m) =
    let rest = release_errors m in if id == "" then "release has empty id" ∷ rest else rest

unfoldable pub task_errors : State → Map Task → List String
task_errors st [] = []
task_errors st ((id, t) ∷ m) =
    let rest = task_errors st m in
    let of_device =
      if is_found (lookup t.device_id st.devices)
      then rest
      else about id " references missing device" ∷ rest in
    if is_found (lookup t.release_id st.releases)
    then of_device
    else about id " references missing release" ∷ of_device

-- Each error of a task counts one orphan.
unfoldable pub inspect : State → Report
unfolding release_errors task_errors
inspect st = record {
  releases = length st.releases;
  devices = length st.devices;
  tasks = length st.tasks;
  terminal = count terminal (values st.releases);
  active = count is_under_way (values st.releases);
  orphaned = length (task_errors st st.tasks);
  errors = sort_by str_ltb (release_errors st.releases ++ task_errors st st.tasks);
}

unfoldable pub repairable : State → Bool
unfolding inspect
repairable st = eqb (length (inspect st).errors) 0
