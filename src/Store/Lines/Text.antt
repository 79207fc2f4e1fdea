-- ===== src/Store/Lines/Text.antt =====
-- Texts and their lines.
use go_prod22_go_project.Prelude.{
  ℕ, ◌<◌, true, false, ◌≡◌, refl, sym, ◌∙◌, ap, List, [], ◌∷◌, ◌++◌, length, append_assoc, ltb, eqb,
  arith, Bool-cases, inl, inr,
}
use go_prod22_go_project.Store.Lines.{Bytes, newline, lines, scan, drop_return}
use go_prod22_go_project.Store.Json.{has_break, is_break}

-- Lines, each with its end.
unfoldable pub text : List Bytes → Bytes
text [] = []
text (b ∷ bs) = b ++ newline ∷ text bs

-- Each line has no break of its own.
abbrev pub AreWhole : List Bytes → Type 0
AreWhole [] = Unit {0}
AreWhole (b ∷ bs) = (has_break b ≡ false) × AreWhole bs

pub text-append :
    (bs : List Bytes) (b : Bytes) → text (bs ++ b ∷ []) ≡ text bs ++ (b ++ newline ∷ [])
unfolding text
text-append [] b = refl
text-append (c ∷ bs) b =
    ap (λ r. c ++ newline ∷ r) (text-append bs b)
    ∙ sym (append_assoc c (newline ∷ text bs) (b ++ newline ∷ []))

-- A line with its end is the first line.
pub lines-line :
    (b rest : Bytes) → has_break b ≡ false → lines (b ++ newline ∷ rest) ≡ b ∷ lines rest
unfolding lines has_break
lines-line [] rest h = refl
lines-line (c ∷ b) rest h = elim (Bool-cases (is_break c)) [
  | inl e ↦ cc (rw e at h)
  | inr e ↦
      let flat : has_break b ≡ false = rw e at h in
      let plain : eqb c newline ≡ false = ground arith in rw (plain, lines-line b rest flat) refl
]

pub lines-text : (bs : List Bytes) → AreWhole bs → lines (text bs) ≡ bs
unfolding text lines
lines-text [] h = refl
lines-text (b ∷ bs) h = lines-line b (text bs) h.0 ∙ ap (λ r. b ∷ r) (lines-text bs h.1)

pub drop_return_whole : (b : Bytes) → has_break b ≡ false → drop_return b ≡ b
unfolding drop_return has_break
drop_return_whole [] h = refl
drop_return_whole (c ∷ []) h = ground arith
drop_return_whole (c ∷ d ∷ b) h = elim (Bool-cases (is_break c)) [
  | inl e ↦ cc (rw e at h)
  | inr e ↦ ap (λ r. c ∷ r) (drop_return_whole (d ∷ b) (rw e at h))
]

-- No line fills a scanner's buffer.
abbrev pub AreShort : ℕ → List Bytes → Type 0
AreShort limit [] = Unit {0}
AreShort limit (b ∷ bs) = (length b < limit) × AreShort limit bs

pub scan_lem :
    (limit : ℕ) (bs : List Bytes) → AreWhole bs → AreShort limit bs → scan limit bs ≡ (bs, false)
unfolding scan
scan_lem limit [] w h = refl
scan_lem limit (b ∷ bs) w h =
    let short : ltb (length b) limit ≡ true = ground arith in
    rw (short, scan_lem limit bs w.1 h.1, drop_return_whole b w.0) refl

pub lines-text_append :
    (bs : List Bytes) (rest : Bytes) → AreWhole bs → lines (text bs ++ rest) ≡ bs ++ lines rest
unfolding text
lines-text_append [] rest h = refl
lines-text_append (b ∷ bs) rest h =
    ap lines (append_assoc b (newline ∷ text bs) rest)
    ∙ lines-line b (text bs ++ rest) h.0
    ∙ ap (λ r. b ∷ r) (lines-text_append bs rest h.1)

-- A scanner gives the lines that fit before the rest.
pub scan_append :
    (limit : ℕ) (bs ls : List Bytes)
    → AreWhole bs
    → AreShort limit bs
    → scan limit (bs ++ ls) ≡ (bs ++ (scan limit ls).0, (scan limit ls).1)
unfolding scan
scan_append limit [] ls w h = refl
scan_append limit (b ∷ bs) ls w h =
    let short : ltb (length b) limit ≡ true = ground arith in
    rw (short, scan_append limit bs ls w.1 h.1, drop_return_whole b w.0) refl

pub AreShort-append :
    {limit : ℕ} (bs : List Bytes) (b : Bytes)
    → AreShort limit (bs ++ b ∷ [])
    → AreShort limit bs × (length b < limit)
AreShort-append [] b h = (tt, h.0)
AreShort-append (c ∷ bs) b h = let (rest, last) = AreShort-append bs b h.1 in ((h.0, rest), last)
