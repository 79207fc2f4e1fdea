-- ===== src/Prelude/Map/Keys.antt =====
-- Maps whose records stand under their own ids, each key once.
use Prim.Native.String.{String}
use mathlib.Core.Path.{◌≡◌, refl}
use mathlib.Core.Option.{none, some}
use mathlib.Core.List.{[], ◌∷◌}
use native.Mathlib.Omega.{arith}
use text.Mathlib.TextEquality.{eq_iff}
use go_prod22_go_project.Prelude.Tests.{string_eq}
use go_prod22_go_project.Prelude.Map.{Map, lookup, insert, replace, lookup-insert}

-- Each record stands under its own id.
abbrev pub Keyed : {V : Type 0} → (V → String) → Map V → Type 0
Keyed id [] = Unit {0}
Keyed id ((k, v) ∷ m) = (id v ≡ k) × Keyed id m

pub lookup-Keyed :
    {V : Type 0} (id : V → String) (k : String) (m : Map V) (v : V)
    → Keyed id m
    → lookup k m ≡ some v
    → id v ≡ k
unfolding lookup
lookup-Keyed id k [] v h e = ground arith
lookup-Keyed id k ((j, w) ∷ m) v h e = ground (arith, eq_iff j k, lookup-Keyed id k m v h.1)

-- No key twice.
abbrev pub Unique : {V : Type 0} → Map V → Type 0
Unique [] = Unit {0}
Unique ((k, v) ∷ m) = (lookup k m ≡ none) × Unique m

module _ {V : Type 0} where
  pub insert-Keyed :
      (id : V → String) (k : String) (v : V) (m : Map V)
      → id v ≡ k
      → Keyed id m
      → Keyed id (insert k v m)
  unfolding insert
  insert-Keyed id k v [] e h = (e, tt)
  insert-Keyed id k v ((j, w) ∷ m) e h = ground (arith, insert-Keyed id k v m e h.1)

  pub replace-Keyed :
      (id : V → String) (k : String) (v : V) (m : Map V)
      → id v ≡ k
      → Keyed id m
      → Keyed id (replace k v m)
  unfolding replace
  replace-Keyed id k v [] e h = tt
  replace-Keyed id k v ((j, w) ∷ m) e h = ground (arith, eq_iff j k, replace-Keyed id k v m e h.1)

  lookup-replace-none :
      (k j : String) (v : V) (m : Map V) → lookup j m ≡ none → lookup j (replace k v m) ≡ none
  unfolding lookup replace
  lookup-replace-none k j v [] h = refl
  lookup-replace-none k j v ((i, w) ∷ m) h =
      ground (arith, eq_iff i j, eq_iff i k, lookup-replace-none k j v m)

  pub insert-Unique : (k : String) (v : V) (m : Map V) → Unique m → Unique (insert k v m)
  unfolding insert lookup
  insert-Unique k v [] h = (refl, tt)
  insert-Unique k v ((j, w) ∷ m) h =
      ground (arith, eq_iff j k, eq_iff k j, lookup-insert k j v m, insert-Unique k v m h.1)

  pub replace-Unique : (k : String) (v : V) (m : Map V) → Unique m → Unique (replace k v m)
  unfolding replace
  replace-Unique k v [] h = tt
  replace-Unique k v ((j, w) ∷ m) h =
      ground (arith, lookup-replace-none k j v m, replace-Unique k v m h.1)
