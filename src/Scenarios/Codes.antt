-- ===== src/Scenarios/Codes.antt =====
-- A stand-in for JSON, xs a concrete codec of records and snapshots, with what the durable store
-- relies on.
pub mod Types
pub mod Values
use go_prod22_go_project.Prelude.{
  ℕ, suc, zero, ◌+◌, ◌-◌, ℤ, pos, negsuc, String, Option, none, some, Bool, true, false, ◌≡◌, refl,
  ap, ◌∙◌, sym, List, [], ◌∷◌, ◌++◌, eqb, ◌||◌, arith, if◌then◌else◌,
}
use go_prod22_go_project.Prelude.Map.{Map}
use go_prod22_go_project.Domain.Status.{TaskStatus, ReleaseStatus, task_rank, release_rank}
use go_prod22_go_project.Domain.Model.{Release, Device, Task, RollbackPolicy, Time}
use go_prod22_go_project.Events.{Event, Payload, release_data, device_data, task_data, raw}
use go_prod22_go_project.Store.{State}
use go_prod22_go_project.Store.Lines.{Bytes}
use go_prod22_go_project.Store.Json.{Json, IsJson, has_break, is_break}
use go_prod22_go_project.Store.Durable.{Envelope, SnapshotEnvelope}

-- A value is written before a rest, and read off it again; no break is written.
pub record Code (A : Type 0) : Type 0 where
  pub put : A → Bytes → Bytes
  pub get : Bytes → Option (A × Bytes)
  pub get-put : (a : A) (rest : Bytes) → get (put a rest) ≡ some (a, rest)
  pub flat : (a : A) (rest : Bytes) → has_break (put a rest) ≡ has_break rest

-- Numbers stand above the breaks.
abbrev get_number : Bytes → Option (ℕ × Bytes)
get_number [] = none
get_number (c ∷ cs) = some (c - 100, cs)

pub number_flat : (n : ℕ) (rest : Bytes) → has_break ((n + 100) ∷ rest) ≡ has_break rest
unfolding has_break
number_flat n rest = ground arith

unfoldable pub number : Code ℕ
number = record {
  put = λ n rest. (n + 100) ∷ rest;
  get = get_number;
  get-put = λ n rest. ap (λ m. some (m, rest)) (omega arith);
  flat = number_flat;
}

module _ {A B : Type 0} where
  abbrev pair_next :
      (A → Bytes → Option ((A × B) × Bytes)) → Option (A × Bytes) → Option ((A × B) × Bytes)
  pair_next f none = none
  pair_next f (some (a, rest)) = f a rest

  abbrev pair_last : A → Option (B × Bytes) → Option ((A × B) × Bytes)
  pair_last a none = none
  pair_last a (some (b, rest)) = some ((a, b), rest)

  unfoldable pub pair : Code A → Code B → Code (A × B)
  pair x y = record {
    put = λ p rest. x.put p.0 (y.put p.1 rest);
    get = λ bytes. pair_next (λ a rest. pair_last a (y.get rest)) (x.get bytes);
    get-put = λ p rest. rw (x.get-put p.0 (y.put p.1 rest), y.get-put p.1 rest) refl;
    flat = λ p rest. x.flat p.0 (y.put p.1 rest) ∙ y.flat p.1 rest;
  }

  abbrev pub mapped : (A → B) → Option (A × Bytes) → Option (B × Bytes)
  mapped f none = none
  mapped f (some (a, rest)) = some (f a, rest)

  -- A type xs another one, by functions there and back.
  unfoldable pub through : Code A → (f : A → B) (g : B → A) → ((b : B) → f (g b) ≡ b) → Code B
  through x f g back = record {
    put = λ b rest. x.put (g b) rest;
    get = λ bytes. mapped f (x.get bytes);
    get-put = λ b rest. rw (x.get-put (g b) rest) (ap (λ c. some (c, rest)) (back b));
    flat = λ b rest. x.flat (g b) rest;
  }

module _ {A : Type 0} (x : Code A) where
  unfoldable pub put_items : List A → Bytes → Bytes
  put_items [] rest = rest
  put_items (a ∷ xs) rest = x.put a (put_items xs rest)

  abbrev add_item : Option (A × Bytes) → (Bytes → Option (List A × Bytes)) → Option (List A × Bytes)
  add_item none next = none
  add_item (some (a, rest)) next = mapped (λ xs. a ∷ xs) (next rest)

  unfoldable pub get_items : ℕ → Bytes → Option (List A × Bytes)
  get_items zero bytes = some ([], bytes)
  get_items (suc n) bytes = add_item (x.get bytes) (get_items n)

  abbrev count_items : List A → ℕ
  count_items [] = zero
  count_items (a ∷ xs) = suc (count_items xs)

  abbrev get_list : Option (ℕ × Bytes) → Option (List A × Bytes)
  get_list none = none
  get_list (some (n, rest)) = get_items n rest

  pub items_lem :
      (xs : List A) (rest : Bytes)
      → get_items (count_items xs) (put_items xs rest) ≡ some (xs, rest)
  unfolding get_items put_items
  items_lem [] rest = refl
  items_lem (a ∷ xs) rest = rw (x.get-put a (put_items xs rest), items_lem xs rest) refl

  pub items_flat : (xs : List A) (rest : Bytes) → has_break (put_items xs rest) ≡ has_break rest
  unfolding put_items
  items_flat [] rest = refl
  items_flat (a ∷ xs) rest = x.flat a (put_items xs rest) ∙ items_flat xs rest

  unfoldable pub list : Code (List A)
  list = record {
    put = λ xs rest. number.put (count_items xs) (put_items xs rest);
    get = λ bytes. get_list (number.get bytes);
    get-put =
        λ xs rest. rw (number.get-put (count_items xs) (put_items xs rest)) (items_lem xs rest);
    flat = λ xs rest. number.flat (count_items xs) (put_items xs rest) ∙ items_flat xs rest;
  }
