-- ===== src/Prelude/Map/Tally.antt =====
-- Maps of counts, as Go's `m[k]++` and `m[k] += n` make them.
use Prim.Native.Nat.{ℕ, ◌+◌}
use Prim.Native.String.{String}
use mathlib.Core.Path.{◌≡◌, refl, ◌∙◌, ap, subst}
use mathlib.Core.Logic.{inl, inr}
use mathlib.Core.Option.{Option, none, some}
use mathlib.Core.List.{[], ◌∷◌}
use native.Mathlib.Omega.{arith}
use text.Mathlib.TextEquality.{eq_iff}
use go_prod22_go_project.Prelude.Tests.{◌==◌, Bool-cases, string_eq, if◌then◌else◌}
use go_prod22_go_project.Prelude.Map.{Map, lookup, insert, lookup-insert}
use go_prod22_go_project.Prelude.Map.Keys.{Unique, insert-Unique}

abbrev pub or_zero : Option ℕ → ℕ
or_zero none = 0
or_zero (some n) = n

-- `m[k]`
abbrev pub amount : String → Map ℕ → ℕ
amount k m = or_zero (lookup k m)

-- `m[k] += n`
unfoldable pub add_to : String → ℕ → Map ℕ → Map ℕ
add_to k n m = insert k (amount k m + n) m

pub amount-add_to :
    (set get : String) (n : ℕ) (m : Map ℕ)
    → amount get (add_to set n m) ≡ (if set == get then amount get m + n else amount get m)
unfolding add_to
amount-add_to set get n m =
    ground (arith, eq_iff set get, lookup-insert set get (amount set m + n) m)

pub add_to-Unique : (k : String) (n : ℕ) (m : Map ℕ) → Unique m → Unique (add_to k n m)
unfolding add_to
add_to-Unique k n m h = insert-Unique k (amount k m + n) m h

-- A loop that adds each count of the first map to the second.
unfoldable pub add_all : Map ℕ → Map ℕ → Map ℕ
unfolding add_to
add_all [] out = out
add_all ((k, n) ∷ m) out = add_all m (add_to k n out)

pub amount-add_all :
    (get : String) (m out : Map ℕ)
    → Unique m
    → amount get (add_all m out) ≡ amount get out + amount get m
unfolding add_all lookup
amount-add_all get [] out h = omega arith
amount-add_all get ((k, n) ∷ m) out h = elim (Bool-cases (k == get)) [
  | inl e ↦
      let gone : amount get m ≡ 0 =
        ap or_zero (subst (λ j. lookup j m ≡ none) ((eq_iff k get).0 e) h.0) in
      let here : amount get (add_to k n out) ≡ amount get out + n =
        amount-add_to k get n out ∙ rw e refl in
      rw e (omega (arith, amount-add_all get m (add_to k n out) h.1, here, gone))
  | inr e ↦
      let there : amount get (add_to k n out) ≡ amount get out =
        amount-add_to k get n out ∙ rw e refl in
      rw e (omega (arith, amount-add_all get m (add_to k n out) h.1, there))
]
