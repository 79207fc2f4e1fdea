-- ===== src/Store/Json.antt =====
-- What the stores use of `encoding/json`, for one type.
use go_prod22_go_project.Prelude.{
  ℕ, Bool, Option, some, [], ◌∷◌, ◌≡◌, eqb, ◌||◌, true, false, if◌then◌else◌,
}
use go_prod22_go_project.Store.Lines.{Bytes, newline, carriage_return}

pub record Json (A : Type 0) : Type 0 where
  pub marshal : A → Option Bytes
  pub unmarshal : Bytes → Option A

-- A byte that ends a line, or is dropped before its end.
abbrev pub is_break : ℕ → Bool
is_break c = eqb c newline || eqb c carriage_return

unfoldable pub has_break : Bytes → Bool
has_break [] = false
has_break (c ∷ cs) = let rest = has_break cs in if is_break c then true else rest

-- `Unmarshal` reads back what `Marshal` or `MarshalIndent` wrote.
pub record ReadsBack {A : Type 0} (json : Json A) : Type 0 where
  pub unmarshal-marshal : (a : A) (b : Bytes) → json.marshal a ≡ some b → json.unmarshal b ≡ some a

-- `Unmarshal` reads back what `Marshal` wrote, which has no line break.
pub record IsJson {A : Type 0} (json : Json A) : Type 0 where
  pub unmarshal-marshal : (a : A) (b : Bytes) → json.marshal a ≡ some b → json.unmarshal b ≡ some a
  pub one_line : (a : A) (b : Bytes) → json.marshal a ≡ some b → has_break b ≡ false
