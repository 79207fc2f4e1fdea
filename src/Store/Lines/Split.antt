-- ===== src/Store/Lines/Split.antt =====
-- `splitLines` of internal/store/store.go against the lines of a text.
use go_prod22_go_project.Prelude.{
  Bool, true, false, ◌≡◌, refl, sym, ◌∙◌, ap, List, [], ◌∷◌, ◌++◌, append-nil, append_assoc, keep,
  eqb, Bool-cases, inl, inr,
}
use go_prod22_go_project.Store.Lines.{
  Bytes, newline, lines, begin_line, add_line, split_from, split_lines,
}

abbrev pub has_bytes : Bytes → Bool
has_bytes [] = false
has_bytes (c ∷ cs) = true

-- The bytes of a line that was begun, before the lines of what follows.
abbrev attach : Bytes → List Bytes → List Bytes
attach line [] = add_line line []
attach line (l ∷ ls) = (line ++ l) ∷ ls

attach_nil : (ls : List Bytes) → attach [] ls ≡ ls
attach_nil [] = refl
attach_nil (l ∷ ls) = refl

attach-begin_line :
    (line : Bytes) (c : _) (ls : List Bytes)
    → attach line (begin_line c ls) ≡ attach (line ++ c ∷ []) ls
attach-begin_line [] c [] = refl
attach-begin_line (b ∷ line) c [] = refl
attach-begin_line line c (l ∷ ls) = ap (λ x. x ∷ ls) (sym (append_assoc line (c ∷ []) l))

keep_added : (line : Bytes) → keep has_bytes (add_line line []) ≡ add_line line []
keep_added [] = refl
keep_added (c ∷ line) = refl

keep-attach :
    (line : Bytes) (ls : List Bytes)
    → keep has_bytes ((line ++ []) ∷ ls) ≡ add_line line (keep has_bytes ls)
keep-attach [] ls = refl
keep-attach (c ∷ line) ls = ap (λ x. (c ∷ x) ∷ keep has_bytes ls) (append-nil line)

split_from_lem : (line b : Bytes) → split_from line b ≡ keep has_bytes (attach line (lines b))
unfolding split_from lines
split_from_lem line [] = sym (keep_added line)
split_from_lem line (c ∷ cs) = elim (Bool-cases (eqb c newline)) [
  | inl e ↦ rw e (
      ap (add_line line) (split_from_lem [] cs ∙ ap (keep has_bytes) (attach_nil (lines cs)))
      ∙ sym (keep-attach line (lines cs)))
  | inr e ↦ rw e (
      split_from_lem (line ++ c ∷ []) cs
      ∙ ap (keep has_bytes) (sym (attach-begin_line line c (lines cs))))
]

-- `splitLines` gives the lines of a text that are not empty, in order.
pub split_lines_lem : (b : Bytes) → split_lines b ≡ keep has_bytes (lines b)
unfolding split_lines
split_lines_lem b = split_from_lem [] b ∙ ap (keep has_bytes) (attach_nil (lines b))
