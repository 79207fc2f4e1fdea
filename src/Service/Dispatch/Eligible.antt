-- ===== src/Service/Dispatch/Eligible.antt =====
-- The tasks that a device may claim.
use go_prod22_go_project.Prelude.{
  String, some, Bool, true, false, ◌==◌, ◌↔◌, ◌⊎◌, ◌≤ℤ◌, ◌<ℤ◌, ◌≡◌, subst, inl, inr, Bool-cases,
  List, [], ◌∷◌, keep, sort_by, insert_sorted, arith, string_eq, eq_iff,
}
use go_prod22_go_project.Prelude.Map.{Map, lookup, values}
use go_prod22_go_project.Prelude.Map.Keys.{Keyed, Unique}
use go_prod22_go_project.Domain.Status.{TaskStatus, task_status_eq}
use go_prod22_go_project.Domain.Model.{Task, Time, zero_time}
use go_prod22_go_project.Prelude.Text.{str_ltb}
use go_prod22_go_project.Store.{State}
use go_prod22_go_project.Service.WellFormed.{WellFormed}
use go_prod22_go_project.Service.Dispatch.{
  is_eligible, eligible_tasks, dispatch_order, dispatch_decision, release_age, head?,
}
use go_prod22_go_project.Service.Dispatch.Order.{All, head-sort, order_lem}

All-map : (P Q : Task → Type 0) (xs : List Task) → ((x : Task) → P x → Q x) → All P xs → All Q xs
All-map P Q [] f h = tt
All-map P Q (x ∷ xs) f h = (f x h.0, All-map P Q xs f h.1)

All-keep :
    (P : Task → Type 0) (p : Task → Bool) (xs : List Task)
    → All P xs
    → All (λ x. P x × (p x ≡ true)) (keep p xs)
All-keep P p [] h = tt
All-keep P p (x ∷ xs) h = elim (Bool-cases (p x)) [
  | inl e ↦ rw e ((h.0, e), All-keep P p xs h.1)
  | inr e ↦ rw e (All-keep P p xs h.1)
]

All-insert_sorted :
    (P : Task → Type 0) (less : Task → Task → Bool) (x : Task) (xs : List Task)
    → P x
    → All P xs
    → All P (insert_sorted less x xs)
All-insert_sorted P less x [] px h = (px, tt)
All-insert_sorted P less x (y ∷ ys) px h = elim (Bool-cases (less y x)) [
  | inl e ↦ rw e (h.0, All-insert_sorted P less x ys px h.1)
  | inr e ↦ rw e (px, h)
]

All-sort_by :
    (P : Task → Type 0) (less : Task → Task → Bool) (xs : List Task)
    → All P xs
    → All P (sort_by less xs)
All-sort_by P less [] h = tt
All-sort_by P less (x ∷ xs) h =
    All-insert_sorted P less x (sort_by less xs) h.0 (All-sort_by P less xs h.1)

-- In a well-formed map each task is what its id leads to.
stands :
    (m : Map Task) → Keyed (λ t. t.id) m → Unique m → All (λ t. lookup t.id m ≡ some t) (values m)
unfolding lookup
stands [] k u = tt
stands ((j, w) ∷ m) k u = (
  ground (arith, eq_iff j w.id),
  All-map (λ t. lookup t.id m ≡ some t) _ (values m) (λ t e. ground (arith, eq_iff j t.id))
      (stands m k.1 u.1),
)

All-head : (P : Task → Type 0) (xs : List Task) {t : Task} → All P xs → head? xs ≡ some t → P t
All-head P [] h e = cc
All-head P (x ∷ xs) {t} h e = subst P (ground arith) h.0

-- The first of a device's eligible tasks stands in the state under its id and passes the test of
-- the loop of `EligibleTasks`.
pub eligible_stands :
    (device : String) (now : Time) (st : State) (t : Task)
    → WellFormed st
    → head? (eligible_tasks device now st) ≡ some t
    → (lookup t.id st.tasks ≡ some t) × (is_eligible device now st t ≡ true)
unfolding eligible_tasks
eligible_stands device now st t w e =
    All-head _ _
      (All-sort_by _ (dispatch_order st) _
        (All-keep _ (is_eligible device now st) _ (stands st.tasks w.tasks_keyed w.tasks_unique)))
      e

pub eligible_iff :
    (device : String) (now : Time) (st : State) (t : Task)
    → (is_eligible device now st t ≡ true) ↔ (
        (t.device_id ≡ device)
        × ((t.status ≡ TaskStatus.queued) ⊎ (t.status ≡ TaskStatus.rejected))
        × ((t.next_retry ≡ zero_time) ⊎ (t.next_retry ≤ℤ now))
        × ((dispatch_decision t.release_id st).allowed ≡ true))
unfolding is_eligible
eligible_iff device now st t = (
  (λ h. ground (arith, eq_iff t.device_id device)),
  (λ h. ground (arith, eq_iff t.device_id device)),
)

-- What holds of every task of a longer list holds of every task that was put into it.
uninserted :
    (P : Task → Type 0) (less : Task → Task → Bool) (x : Task) (xs : List Task)
    → All P (insert_sorted less x xs)
    → P x × All P xs
uninserted P less x [] h = h
uninserted P less x (y ∷ ys) h = elim (Bool-cases (less y x)) [
  | inl e ↦
      let (py, rest) : P y × All P (insert_sorted less x ys) = rw e at h in
      let (px, pys) = uninserted P less x ys rest in (px, (py, pys))
  | inr e ↦ rw e at h
]

unsorted :
    (P : Task → Type 0) (less : Task → Task → Bool) (xs : List Task)
    → All P (sort_by less xs)
    → All P xs
unsorted P less [] h = tt
unsorted P less (x ∷ xs) h =
    let (px, rest) = uninserted P less x (sort_by less xs) h in (px, unsorted P less xs rest)

-- A task that a map holds and a test keeps.
All-lookup :
    (P : Task → Type 0) (p : Task → Bool) (k : String) (u : Task) (m : Map Task)
    → lookup k m ≡ some u
    → p u ≡ true
    → All P (keep p (values m))
    → P u
unfolding lookup
All-lookup P p k u [] found kept h = cc
All-lookup P p k u ((j, w) ∷ m) found kept h = elim (Bool-cases (j == k)) [
  | inl e ↦ let same : w ≡ u = ground arith in (rw (same, kept) at h).0
  | inr e ↦ elim (Bool-cases (p w)) [
    | inl y ↦ All-lookup P p k u m (rw e at found) kept (rw y at h).1
    | inr n ↦ All-lookup P p k u m (rw e at found) kept (rw n at h)
  ]
]

-- A task of the state that a device may be given: it stands under its own id, is the device's, is
-- queued or rejected, waits for no later retry, and its release may run tasks.
pub record CanRun (device : String) (now : Time) (st : State) (t : Task) : Type 0 where
  pub stored : lookup t.id st.tasks ≡ some t
  pub of_device : t.device_id ≡ device
  pub waits : (t.status ≡ TaskStatus.queued) ⊎ (t.status ≡ TaskStatus.rejected)
  pub rested : (t.next_retry ≡ zero_time) ⊎ (t.next_retry ≤ℤ now)
  pub allowed : (dispatch_decision t.release_id st).allowed ≡ true

-- In a well-formed state, let `u` be any task that stands under its id, belongs to the device, is
-- queued or rejected, waits for no later retry, and has a release that may run tasks. Then so is
-- the first of the device's eligible tasks, and either its release is older than that of `u`, or
-- the two were created at the same time and the id of `u` does not come before its id.
pub eligible_head :
    (device : String) (now : Time) (st : State) (t u : Task)
    → WellFormed st
    → head? (eligible_tasks device now st) ≡ some t
    → CanRun device now st u
    → CanRun device now st t
      × ((release_age st t <ℤ release_age st u)
          ⊎ ((release_age st t ≡ release_age st u) × (str_ltb u.id t.id ≡ false)))
unfolding eligible_tasks
eligible_head device now st t u w e can =
    let (stored, passed) = eligible_stands device now st t w e in
    let (of_device, waits, rested, allowed) = (eligible_iff device now st t).0 passed in
    let passes =
      (eligible_iff device now st u).1 (can.of_device, can.waits, can.rested, can.allowed) in
    let runnable = keep (is_eligible device now st) (values st.tasks) in
    let P : Task → Type 0 = λ x. dispatch_order st x t ≡ false in
    let first : P u =
      All-lookup P (is_eligible device now st) u.id u st.tasks can.stored passes
        (unsorted P (dispatch_order st) runnable (head-sort st runnable e)) in
    (
      record {
        stored = stored;
        of_device = of_device;
        waits = waits;
        rested = rested;
        allowed = allowed;
      },
      order_lem st t u first,
    )
