-- ===== src/Recovery/Soundness.antt =====
-- What the checks of a loaded state accept.
use go_prod22_go_project.Prelude.{
  suc, ◌+◌, Bool, true, ◌≡◌, ◌≢◌, refl, ◌∙◌, ap, ◌↔◌, List, [], ◌∷◌, ◌++◌, length, sort_by,
  insert_sorted, arith, string_eq, eq_iff, Bool-cases, inl, inr, length-append,
}
use go_prod22_go_project.Prelude.Text.{str_ltb}
use go_prod22_go_project.Prelude.Map.{Map, lookup}
use go_prod22_go_project.Domain.Model.{Release, Task}
use go_prod22_go_project.Domain.Errors.{ok}
use go_prod22_go_project.Store.{State}
use go_prod22_go_project.Recovery.{
  is_found, check_tasks, check, release_errors, task_errors, inspect, repairable,
}

-- Every task names a device and a release, and the release exists.
abbrev pub AreRelated : Map Release → Map Task → Type 0
AreRelated releases [] = Unit {0}
AreRelated releases ((id, t) ∷ m) =
    (t.release_id ≢ "")
    × (t.device_id ≢ "")
    × (is_found (lookup t.release_id releases) ≡ true)
    × AreRelated releases m

related :
    (releases : Map Release) (m : Map Task) → check_tasks releases m ≡ ok tt → AreRelated releases m
unfolding check_tasks
related releases [] h = tt
related releases ((id, t) ∷ m) h =
    ground (arith, eq_iff t.release_id "", eq_iff t.device_id "", related releases m)

accepted :
    (releases : Map Release) (m : Map Task) → AreRelated releases m → check_tasks releases m ≡ ok tt
unfolding check_tasks
accepted releases [] h = refl
accepted releases ((id, t) ∷ m) h =
    ground (arith, eq_iff t.release_id "", eq_iff t.device_id "", accepted releases m)

-- `Check` accepts exactly the states in which every task names a device and a release that exists.
pub check_iff : (st : State) → (check st ≡ ok tt) ↔ AreRelated st.releases st.tasks
unfolding check
check_iff st = (related st.releases st.tasks, accepted st.releases st.tasks)

-- No release has the empty id, and every task's release and device exist.
abbrev pub AreNamed : Map Release → Type 0
AreNamed [] = Unit {0}
AreNamed ((id, r) ∷ m) = (id ≢ "") × AreNamed m

abbrev pub AreAttached : State → Map Task → Type 0
AreAttached st [] = Unit {0}
AreAttached st ((id, t) ∷ m) =
    (is_found (lookup t.release_id st.releases) ≡ true)
    × (is_found (lookup t.device_id st.devices) ≡ true)
    × AreAttached st m

length-insert_sorted :
    {A : Type 0} (less : A → A → Bool) (x : A) (xs : List A)
    → length (insert_sorted less x xs) ≡ suc (length xs)
length-insert_sorted less x [] = refl
length-insert_sorted less x (y ∷ ys) = elim (Bool-cases (less y x)) [
  | inl e ↦ rw e (ap suc (length-insert_sorted less x ys))
  | inr e ↦ rw e refl
]

length-sort_by :
    {A : Type 0} (less : A → A → Bool) (xs : List A) → length (sort_by less xs) ≡ length xs
length-sort_by less [] = refl
length-sort_by less (x ∷ xs) =
    length-insert_sorted less x (sort_by less xs) ∙ ap suc (length-sort_by less xs)

named : (m : Map Release) → length (release_errors m) ≡ 0 → AreNamed m
unfolding release_errors
named [] h = tt
named ((id, r) ∷ m) h = ground (arith, eq_iff id "", named m)

unnamed : (m : Map Release) → AreNamed m → length (release_errors m) ≡ 0
unfolding release_errors
unnamed [] h = refl
unnamed ((id, r) ∷ m) h = ground (arith, eq_iff id "", unnamed m)

attached : (st : State) (m : Map Task) → length (task_errors st m) ≡ 0 → AreAttached st m
unfolding task_errors
attached st [] h = tt
attached st ((id, t) ∷ m) h = ground (arith, attached st m)

detached : (st : State) (m : Map Task) → AreAttached st m → length (task_errors st m) ≡ 0
unfolding task_errors
detached st [] h = refl
detached st ((id, t) ∷ m) h = ground (arith, detached st m)

pub errors_lem :
    (st : State)
    → length (inspect st).errors
      ≡ length (release_errors st.releases) + length (task_errors st st.tasks)
unfolding inspect
errors_lem st =
    length-sort_by str_ltb (release_errors st.releases ++ task_errors st st.tasks)
    ∙ length-append (release_errors st.releases) (task_errors st st.tasks)

-- A state is repairable exactly when no release has the empty id and every task's release and
-- device exist.
pub repairable_iff :
    (st : State) → (repairable st ≡ true) ↔ (AreNamed st.releases × AreAttached st st.tasks)
unfolding repairable
repairable_iff st = (
  (λ h.
      let none_left : length (inspect st).errors ≡ 0 = ground arith in
      let e = errors_lem st in
      (named st.releases (omega arith), attached st st.tasks (omega arith))),
  (λ h.
      let e = errors_lem st in
      let r = unnamed st.releases h.0 in
      let t = detached st st.tasks h.1 in
      let none_left : length (inspect st).errors ≡ 0 = omega arith in ground arith),
)
