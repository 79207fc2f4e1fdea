-- ===== src/Health/Verdict.antt =====
-- When a state is healthy, and what is counted of its releases.
use go_prod22_go_project.Prelude.{
  ℕ, ◌+◌, String, Bool, false, ◌==◌, ◌≡◌, if◌then◌else◌, [], ◌∷◌, count, string_eq, arith,
  Bool-cases, inl, inr,
}
use go_prod22_go_project.Prelude.Map.{Map, lookup, values}
use go_prod22_go_project.Prelude.Map.Tally.{amount, add_to, amount-add_to}
use go_prod22_go_project.Domain.Model.{Task, Time}
use go_prod22_go_project.Store.{State}
use go_prod22_go_project.Recovery.{inspect, repairable}
use go_prod22_go_project.Recovery.Soundness.{errors_lem}
use go_prod22_go_project.Health.{is_busy, busy_by_release, detailed, healthy}

-- A state is healthy at any time exactly when it is repairable.
pub healthy-repairable : (st : State) (now : Time) → healthy (detailed st now) ≡ repairable st
unfolding healthy detailed repairable inspect
healthy-repairable st now = let e = errors_lem st in ground (arith, e)

module _ (k : String) where
  -- A busy task of the release.
  abbrev pub is_busy_in : Task → Bool
  is_busy_in t = if is_busy t then t.release_id == k else false

  busy_lem :
      (m : Map Task) (out : Map ℕ)
      → amount k (busy_by_release m out) ≡ amount k out + count is_busy_in (values m)
  unfolding busy_by_release
  busy_lem [] out = omega arith
  busy_lem ((id, t) ∷ m) out = elim (Bool-cases (is_busy t)) [
    | inl busy ↦
        rw busy (
          ground
            (arith, busy_lem m (add_to t.release_id 1 out), amount-add_to t.release_id k 1 out))
    | inr idle ↦ rw idle (busy_lem m out)
  ]

-- At any time, a state is healthy exactly when it is repairable, and its details give each release
-- as many as it has tasks that are leased, installing or awaiting.
pub detailed_lem :
    (st : State) (now : Time) (release : String)
    → (healthy (detailed st now) ≡ repairable st)
      × (amount release (detailed st now).by_release ≡ count (is_busy_in release) (values st.tasks))
unfolding detailed lookup
detailed_lem st now release =
    (healthy-repairable st now, omega (arith, busy_lem release st.tasks []))
