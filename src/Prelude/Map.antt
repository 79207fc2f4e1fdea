-- ===== src/Prelude/Map.antt =====
-- Go's `map[string]V` as an association list, and its laws.
pub mod Keys
pub mod Tally
use Prim.Native.String.{String}
use mathlib.Core.Path.{◌≡◌, refl}
use mathlib.Core.Logic.{◌⊎◌, inl, inr}
use mathlib.Core.Bool.{Bool, true, false}
use mathlib.Core.Option.{Option, none, some}
use mathlib.Core.List.{List, [], ◌∷◌}
use native.Mathlib.Omega.{arith}
use text.Mathlib.TextEquality.{eq_iff}
use go_prod22_go_project.Prelude.Tests.{◌==◌, string_eq, if◌then◌else◌}

abbrev pub Map {ℓ} : Type ℓ → Type ℓ
Map V = List (String × V)

module _ {ℓ} {V : Type ℓ} where
  unfoldable pub lookup : String → Map V → Option V
  lookup k [] = none
  lookup k ((j, v) ∷ m) = let rest = lookup k m in if j == k then some v else rest

  -- `m[k] = v`
  unfoldable pub insert : String → V → Map V → Map V
  insert k v [] = (k, v) ∷ []
  insert k v ((j, w) ∷ m) = let rest = insert k v m in if j == k then (k, v) ∷ m else (j, w) ∷ rest

  -- A write through the pointer that the map holds at `k`.
  unfoldable pub replace : String → V → Map V → Map V
  replace k v [] = []
  replace k v ((j, w) ∷ m) =
      let rest = replace k v m in if j == k then (j, v) ∷ m else (j, w) ∷ rest

  -- `delete(m, k)`
  unfoldable pub erase : String → Map V → Map V
  erase k [] = []
  erase k ((j, w) ∷ m) = let rest = erase k m in if j == k then rest else (j, w) ∷ rest

  abbrev pub values : Map V → List V
  values [] = []
  values ((k, v) ∷ m) = v ∷ values m

  pub lookup-insert :
      (set get : String) (new : V) (m : Map V)
      → lookup get (insert set new m) ≡ (if set == get then some new else lookup get m)
  unfolding lookup insert
  lookup-insert set get new [] = refl
  lookup-insert set get new ((at, old) ∷ rest) =
      ground (arith, eq_iff at get, eq_iff at set, eq_iff set get, lookup-insert set get new rest)

  pub lookup-replace_ne :
      (k j : String) (v : V) (m : Map V) → (k == j) ≡ false → lookup j (replace k v m) ≡ lookup j m
  unfolding lookup replace
  lookup-replace_ne k j v [] h = refl
  lookup-replace_ne k j v ((i, w) ∷ m) h =
      ground (arith, eq_iff k j, eq_iff i k, eq_iff i j, lookup-replace_ne k j v m h)

  pub lookup-replace_self :
      (k : String) (v w : V) (m : Map V) → lookup k m ≡ some w → lookup k (replace k v m) ≡ some v
  unfolding lookup replace
  lookup-replace_self k v w [] h = ground arith
  lookup-replace_self k v w ((i, u) ∷ m) h = ground (arith, eq_iff i k, lookup-replace_self k v w m)

  pub replace_missing : (k : String) (v : V) (m : Map V) → lookup k m ≡ none → replace k v m ≡ m
  unfolding lookup replace
  replace_missing k v [] h = refl
  replace_missing k v ((i, u) ∷ m) h = ground (arith, eq_iff i k, replace_missing k v m)

  -- Writing through the pointer and then into the map is writing into the map.
  pub insert-replace :
      (k : String) (v w : V) (m : Map V) → insert k v (replace k w m) ≡ insert k v m
  unfolding insert replace
  insert-replace k v w [] = refl
  insert-replace k v w ((i, u) ∷ m) = ground (arith, eq_iff i k, insert-replace k v w m)

  pub lookup-erase :
      (gone get : String) (m : Map V)
      → lookup get (erase gone m) ≡ (if gone == get then none else lookup get m)
  unfolding lookup erase
  lookup-erase gone get [] = ground arith
  lookup-erase gone get ((at, v) ∷ rest) =
      ground (arith, eq_iff at get, eq_iff at gone, eq_iff gone get, lookup-erase gone get rest)
