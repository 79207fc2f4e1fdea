-- ===== src/Prelude/Text.antt =====
-- What the program uses of Go's `strings`: the order of texts, `strings.TrimSpace`, `len`.
use Prim.Native.Nat.{ℕ, zero, suc, ◌+◌}
use Prim.Native.Char.{code}
use Prim.Native.String.{String}
use mathlib.Core.Path.{◌≡◌, refl, ap}
use mathlib.Core.Bool.{Bool, true, false, ◌&&◌, ◌||◌}
use mathlib.Core.Logic.{inl, inr}
use native.Mathlib.Omega.{arith}
use text.Mathlib.TextEquality.{eq_iff}
use go_prod22_go_project.Prelude.Tests.{◌==◌, string_eq, Bool-cases, ltb, leb, eqb, if◌then◌else◌}

-- Go compares strings byte by byte, which in UTF-8 is code point by code point.
unfoldable pub str_ltb : String → String → Bool
str_ltb String.[] String.[] = false
str_ltb String.[] (String.◌∷◌ d t) = true
str_ltb (String.◌∷◌ c s) String.[] = false
str_ltb (String.◌∷◌ c s) (String.◌∷◌ d t) =
    let rest = str_ltb s t in
    if ltb (code c) (code d) then true else if eqb (code c) (code d) then rest else false

-- The texts one after the other.
abbrev pub join : String → String → String
join String.[] t = t
join (String.◌∷◌ c s) t = String.◌∷◌ c (join s t)

-- The code of the character at an index, or 0.
abbrev pub code_at : ℕ → String → ℕ
code_at n String.[] = 0
code_at zero (String.◌∷◌ c s) = code c
code_at (suc n) (String.◌∷◌ c s) = code_at n s

pub different : (n : ℕ) (s t : String) → eqb (code_at n s) (code_at n t) ≡ false → (s == t) ≡ false
different n s t h = elim (Bool-cases (s == t)) [
  | inl e ↦ let same : code_at n s ≡ code_at n t = ap (code_at n) ((eq_iff s t).0 e) in ground arith
  | inr e ↦ e
]

-- Go's `len` counts the bytes of the UTF-8 text.
abbrev pub byte_width : ℕ → ℕ
byte_width c = if ltb c 0x80 then 1 else if ltb c 0x800 then 2 else if ltb c 0x10000 then 3 else 4

unfoldable pub byte_len : String → ℕ
byte_len String.[] = 0
byte_len (String.◌∷◌ c s) = byte_width (code c) + byte_len s

-- `unicode.IsSpace`.
abbrev pub is_space : ℕ → Bool
is_space c =
    (leb 9 c && leb c 13)
    || eqb c 32
    || eqb c 0x85
    || eqb c 0xa0
    || eqb c 0x1680
    || (leb 0x2000 c && leb c 0x200a)
    || eqb c 0x2028
    || eqb c 0x2029
    || eqb c 0x202f
    || eqb c 0x205f
    || eqb c 0x3000

abbrev pub trim_left : String → String
trim_left String.[] = String.[]
trim_left (String.◌∷◌ c s) =
    let rest = trim_left s in if is_space (code c) then rest else String.◌∷◌ c s

abbrev pub cons_unless_blank : Bool → String → String → String
cons_unless_blank true whole String.[] = String.[]
cons_unless_blank _ whole rest = whole

abbrev pub trim_right : String → String
trim_right String.[] = String.[]
trim_right (String.◌∷◌ c s) =
    let rest = trim_right s in cons_unless_blank (is_space (code c)) (String.◌∷◌ c rest) rest

unfoldable pub trim_space : String → String
trim_space s = trim_left (trim_right s)

trim_space_example : trim_space "  a b \n" ≡ "a b"
unfolding trim_space
trim_space_example = refl

str_ltb_example : str_ltb "dev-a" "dev-b" ≡ true
unfolding str_ltb
str_ltb_example = refl
