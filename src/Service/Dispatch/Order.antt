-- ===== src/Service/Dispatch/Order.antt =====
-- The order in which a device's tasks are claimed, and the first task of a sorted list
-- (`sort.Slice` in `EligibleTasks`, internal/service/dispatch.go).
use go_prod22_go_project.Prelude.{
  String, some, true, false, ◌≡◌, ◌⊎◌, refl, inl, inr, Bool-cases, List, subst, [], ◌∷◌,
  insert_sorted, sort_by, arith, ◌<ℤ◌,
}
use go_prod22_go_project.Prelude.Text.{str_ltb}
use go_prod22_go_project.Domain.Model.{Task}
use go_prod22_go_project.Store.{State}
use go_prod22_go_project.Service.Dispatch.{dispatch_order, release_age, head?}

-- Every task of the list.
abbrev pub All : (Task → Type 0) → List Task → Type 0
All P [] = Unit {0}
All P (x ∷ xs) = P x × All P xs

str_ltb_asym : (a b : String) → str_ltb a b ≡ true → str_ltb b a ≡ false
unfolding str_ltb
str_ltb_asym String.[] String.[] h = refl
str_ltb_asym String.[] (String.◌∷◌ d t) h = refl
str_ltb_asym (String.◌∷◌ c s) String.[] h = cc
str_ltb_asym (String.◌∷◌ c s) (String.◌∷◌ d t) h = ground (arith, str_ltb_asym s t)

str_ltb_skip : (a b c : String) → str_ltb c b ≡ false → str_ltb b a ≡ false → str_ltb c a ≡ false
unfolding str_ltb
str_ltb_skip String.[] String.[] String.[] h k = refl
str_ltb_skip String.[] String.[] (String.◌∷◌ e u) h k = refl
str_ltb_skip String.[] (String.◌∷◌ d t) String.[] h k = refl
str_ltb_skip String.[] (String.◌∷◌ d t) (String.◌∷◌ e u) h k = refl
str_ltb_skip (String.◌∷◌ c s) String.[] e h k = cc
str_ltb_skip (String.◌∷◌ c s) (String.◌∷◌ d t) String.[] h k = cc
str_ltb_skip (String.◌∷◌ c s) (String.◌∷◌ d t) (String.◌∷◌ e u) h k =
    ground (arith, str_ltb_skip s t u)

module _ (st : State) where
  order_asym : (a b : Task) → dispatch_order st a b ≡ true → dispatch_order st b a ≡ false
  order_asym a b h = ground (arith, str_ltb_asym a.id b.id)

  order_skip :
      (a b c : Task)
      → dispatch_order st c b ≡ false
      → dispatch_order st b a ≡ false
      → dispatch_order st c a ≡ false
  order_skip a b c h k = ground (arith, str_ltb_skip a.id b.id c.id)

  pub order_lem :
      (t u : Task)
      → dispatch_order st u t ≡ false
      → (release_age st t <ℤ release_age st u)
        ⊎ ((release_age st t ≡ release_age st u) × (str_ltb u.id t.id ≡ false))
  order_lem t u h = ground arith

  -- No task of the list goes before `t`.
  abbrev Leads : Task → List Task → Type 0
  Leads t us = All (λ u. dispatch_order st u t ≡ false) us

  skip-Leads :
      (t s : Task) (us : List Task) → dispatch_order st s t ≡ false → Leads s us → Leads t us
  skip-Leads t s [] h l = tt
  skip-Leads t s (u ∷ us) h l = (order_skip t s u l.0 h, skip-Leads t s us h l.1)

  insert-Leads :
      (t x : Task) (us : List Task)
      → dispatch_order st x t ≡ false
      → Leads t us
      → Leads t (insert_sorted (dispatch_order st) x us)
  insert-Leads t x [] h l = (h, tt)
  insert-Leads t x (u ∷ us) h l = elim (Bool-cases (dispatch_order st u x)) [
    | inl e ↦ rw e (l.0, insert-Leads t x us h l.1)
    | inr e ↦ rw e (h, l)
  ]

  order_self : (t : Task) → dispatch_order st t t ≡ false
  order_self t = elim (Bool-cases (dispatch_order st t t)) [ inl e ↦ order_asym t t e | inr e ↦ e ]

  -- The first task of a list leads it.
  abbrev HeadLeads : List Task → Type 0
  HeadLeads [] = Unit {0}
  HeadLeads (t ∷ us) = Leads t us

  insert-HeadLeads :
      (x : Task) (us : List Task)
      → HeadLeads us
      → HeadLeads (insert_sorted (dispatch_order st) x us)
  insert-HeadLeads x [] l = tt
  insert-HeadLeads x (u ∷ us) l = elim (Bool-cases (dispatch_order st u x)) [
    | inl e ↦ rw e (insert-Leads u x us (order_asym u x e) l)
    | inr e ↦ rw e (e, skip-Leads x u us e l)
  ]

  sort-HeadLeads : (us : List Task) → HeadLeads (sort_by (dispatch_order st) us)
  sort-HeadLeads [] = tt
  sort-HeadLeads (u ∷ us) = insert-HeadLeads u (sort_by (dispatch_order st) us) (sort-HeadLeads us)

  head-Leads : (us : List Task) {t : Task} → head? us ≡ some t → HeadLeads us → Leads t us
  head-Leads [] e l = cc
  head-Leads (u ∷ us) {t} e l =
      let same : u ≡ t = ground arith in subst (λ x. Leads x (u ∷ us)) same (order_self u, l)

  -- No task of a list goes before the first one of the list sorted.
  pub head-sort :
      (us : List Task) {t : Task}
      → head? (sort_by (dispatch_order st) us) ≡ some t
      → All (λ u. dispatch_order st u t ≡ false) (sort_by (dispatch_order st) us)
  head-sort us e = head-Leads (sort_by (dispatch_order st) us) e (sort-HeadLeads us)
