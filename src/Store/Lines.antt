-- ===== src/Store/Lines.antt =====
-- Bytes and their lines: `bufio.Scanner`, and `splitLines` of internal/store/store.go.
pub mod Text
pub mod Split
use go_prod22_go_project.Prelude.{
  ℕ, suc, ◌+◌, ◌<◌, Bool, true, false, if◌then◌else◌, List, [], ◌∷◌, ◌++◌, length, ltb, eqb, Option,
  none, some,
}

abbrev pub Bytes : Type 0
Bytes = List ℕ

abbrev pub newline : ℕ
newline = 10

abbrev pub carriage_return : ℕ
carriage_return = 13

abbrev pub begin_line : ℕ → List Bytes → List Bytes
begin_line c [] = (c ∷ []) ∷ []
begin_line c (l ∷ ls) = (c ∷ l) ∷ ls

-- The lines of a text, without their ends; the last one may lack its end.
unfoldable pub lines : Bytes → List Bytes
lines [] = []
lines (c ∷ cs) = let rest = lines cs in if eqb c newline then [] ∷ rest else begin_line c rest

-- `bufio.ScanLines` drops a carriage return before the end of a line.
abbrev pub without_return : ℕ → Bytes → Bytes
without_return c [] = if eqb c carriage_return then [] else c ∷ []
without_return c (d ∷ cs) = c ∷ d ∷ cs

unfoldable pub drop_return : Bytes → Bytes
drop_return [] = []
drop_return (c ∷ cs) =
    let rest = drop_return cs in elim cs [ [] ↦ without_return c [] | d ∷ ds ↦ c ∷ rest ]

-- The lines that a scanner gives before one that fills its buffer, and whether there is such a line.
unfoldable pub scan : ℕ → List Bytes → List Bytes × Bool
unfolding drop_return
scan limit [] = ([], false)
scan limit (l ∷ ls) =
    let (rest, long) = scan limit ls in
    if ltb (length l) limit then (drop_return l ∷ rest, long) else ([], true)

-- `splitLines`: `line` holds the bytes since `start`.
abbrev pub add_line : Bytes → List Bytes → List Bytes
add_line [] ls = ls
add_line (c ∷ cs) ls = (c ∷ cs) ∷ ls

unfoldable pub split_from : Bytes → Bytes → List Bytes
split_from line [] = add_line line []
split_from line (c ∷ cs) =
    let ended = split_from [] cs in
    let longer = split_from (line ++ c ∷ []) cs in
    if eqb c newline then add_line line ended else longer

unfoldable pub split_lines : Bytes → List Bytes
unfolding split_from
split_lines b = split_from [] b
