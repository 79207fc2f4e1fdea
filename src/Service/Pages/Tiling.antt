-- ===== src/Service/Pages/Tiling.antt =====
-- Pages that follow each other read the whole listing.
use go_prod22_go_project.Prelude.{
  ℕ, zero, suc, ◌+◌, ◌-◌, ◌^◌, ◌≤◌, ◌<◌, ℤ, ◌≡◌, refl, sym, ◌∙◌, ap, arith, if◌then◌else◌, List, [],
  ◌∷◌, ◌++◌, length, take, drop, pos, negsuc, Bool-cases, inl, inr, ◌||◌, int64, int64_fits, ◌+ℤ◌,
  ◌-ℤ◌, ltb_ℤ, leb_ℤ,
}
use go_prod22_go_project.Service.Pages.{page_limit, page_offset, clamp_page, page}

limit_lem : (limit : ℤ) → (l : ℕ) × (page_limit limit ≡ pos l) × (1 ≤ l) × (l ≤ 100)
limit_lem (pos n) = elim (Bool-cases (leb_ℤ (pos n) (pos 0) || ltb_ℤ (pos 100) (pos n))) [
  | inl e ↦ (20, rw e refl, omega arith, omega arith)
  | inr e ↦ (n, rw e refl, ground arith, ground arith)
]
limit_lem (negsuc n) = (20, ground arith, omega arith, omega arith)

offset_lem : (o total : ℕ) → o ≤ total → page_offset (pos o) (pos total) ≡ pos o
offset_lem o total h = ground arith

sum_lem : (o l : ℕ) → pos o +ℤ pos l ≡ pos (o + l)
unfolding ◌+ℤ◌
sum_lem o l = ground arith

end_lem : (o l : ℕ) → l ≤ 100 → o < 2 ^ 62 → int64 (pos o +ℤ pos l) ≡ pos (o + l)
end_lem o l h k = rw (sum_lem o l) (int64_fits (pos (o + l)) (omega arith, omega arith))

length_lem : (o k : ℕ) → pos (o + k) -ℤ pos o ≡ pos k
unfolding ◌-ℤ◌
length_lem o k = ground arith

capped_lem :
    (o l total : ℕ)
    → o ≤ total
    → 1 ≤ l
    → (k : ℕ) × ((if ltb_ℤ (pos total) (pos (o + l)) then pos total else pos (o + l)) ≡ pos (o + k))
      × (k ≤ l)
      × (o + k ≤ total)
      × (o < total → 1 ≤ k)
capped_lem o l total h p = elim (Bool-cases (ltb_ℤ (pos total) (pos (o + l)))) [
  | inl e ↦ (total - o, rw e (ap pos (omega arith)), ground arith, omega arith, (λ q. omega arith))
  | inr e ↦ (l, rw e refl, omega arith, ground arith, (λ q. p))
]

take-drop : {A : Type 0} (k : ℕ) (xs : List A) → take k xs ++ drop k xs ≡ xs
take-drop zero xs = refl
take-drop (suc k) [] = refl
take-drop (suc k) (x ∷ xs) = ap (λ ys. x ∷ ys) (take-drop k xs)

drop_nil : {A : Type 0} (n : ℕ) → drop {A = A} n [] ≡ []
drop_nil zero = refl
drop_nil (suc n) = refl

drop-drop : {A : Type 0} (o k : ℕ) (xs : List A) → drop k (drop o xs) ≡ drop (o + k) xs
drop-drop zero k xs = ap (λ n. drop n xs) (omega arith)
drop-drop (suc o) k [] = drop_nil k ∙ sym (drop_nil (suc o + k))
drop-drop (suc o) k (x ∷ xs) =
    let shift : suc (o + k) ≡ suc o + k = omega arith in
    drop-drop o k xs ∙ ap (λ n. drop n (x ∷ xs)) shift

clamp_lem :
    (o : ℕ) (limit : ℤ) (total : ℕ)
    → o ≤ total
    → total < 2 ^ 62
    → (k : ℕ) × (clamp_page (pos o) limit (pos total) ≡ (pos o, pos (o + k)))
      × (k ≤ 100)
      × (o + k ≤ total)
      × (o < total → 1 ≤ k)
unfolding clamp_page
clamp_lem o limit total h small =
    let (l, limited, lo, hi) = limit_lem limit in
    let (k, capped, short, inside, moves) = capped_lem o l total h lo in
    (
      k,
      rw (offset_lem o total h, limited, end_lem o l hi (omega arith), capped) refl,
      omega arith,
      inside,
      moves,
    )

-- For a listing of fewer than 2^62 entries, an offset from 0 to its end and any limit, a page
-- starts at the offset, holds at most 100 entries and none from outside, holds at least one unless
-- the offset is the end, and is followed by the next page without gap or overlap: the page and the
-- entries after it are the entries from the offset on.
pub page_lem :
    {A : Type 0} (items : List A) (o : ℕ) (limit : ℤ)
    → o ≤ length items
    → length items < 2 ^ 62
    → let p = page items (pos o) limit in
      (k : ℕ) × (p.offset ≡ pos o)
      × (p.limit ≡ pos k)
      × (k ≤ 100)
      × (o + k ≤ length items)
      × (o < length items → 1 ≤ k)
      × (p.items ++ drop (o + k) items ≡ drop o items)
unfolding page
page_lem items o limit h small =
    let (k, clamped, short, inside, moves) = clamp_lem o limit (length items) h small in
    let width : o + k - o ≡ k = omega arith in
    let rest : take (o + k - o) (drop o items) ++ drop (o + k) items ≡ drop o items =
      rw (width, sym (drop-drop o k items)) (take-drop k (drop o items)) in
    rw clamped (k, refl, length_lem o k, short, inside, moves, rest)
