-- ===== src/Store/Durable/Replace.antt =====
-- What the replacement of a snapshot's file does, whatever calls fail.
use go_prod22_go_project.Prelude.{
  string_eq, ℕ, suc, String, some, false, ◌==◌, ◌≡◌, refl, ◌∙◌, [], arith, eq_iff, Option-cases,
  inl, inr, ◌⊎◌,
}
use go_prod22_go_project.Prelude.Map.{lookup, erase, lookup-insert}
use go_prod22_go_project.Prelude.Text.{different}
use go_prod22_go_project.Domain.Errors.{Result, ok, err, panic}
use go_prod22_go_project.Store.{State}
use go_prod22_go_project.Store.Lines.{Bytes}
use go_prod22_go_project.Store.Disk.{
  Disk, lift, attempt, ◌>>=◌, continue, plain, call, write, rename, temp_name,
}
use go_prod22_go_project.Store.Disk.Quiet.{
  Quiet, Quiet-pure, Quiet-lift, Quiet-or_raise, Quiet-if, Quiet-attempt, Quiet-finally, Quiet-bind,
  Quiet-guard, Quiet-plain, Quiet-now, Quiet-write, Quiet-remove, Quiet-rename,
  Quiet-create_temp_bind,
}
use go_prod22_go_project.Store.Durable.{
  DurableStore, log_file, snapshot_file, ensure, fill, sync_dir, replace_snapshot, snapshot,
  first_error,
}

module _ (d : DurableStore) where
  -- A temporary name is neither the log's nor the snapshot's.
  temp_log : (n : ℕ) → (temp_name d.os n == log_file) ≡ false
  temp_log n = different 8 (temp_name d.os n) log_file refl

  pub temp_snapshot : (n : ℕ) → (temp_name d.os n == snapshot_file) ≡ false
  temp_snapshot n = different 8 (temp_name d.os n) snapshot_file refl

  module _ (k : String) where
    pub Quiet-ensure : Quiet k (ensure d)
    unfolding ensure
    Quiet-ensure = Quiet-bind k _ _ (Quiet-guard d.os k _ _) λ _. Quiet-plain d.os k

    Quiet-sync_dir : Quiet k (sync_dir d)
    unfolding sync_dir
    Quiet-sync_dir =
        Quiet-if k _ _ _ (Quiet-pure k tt)
          (Quiet-bind k _ _ (Quiet-plain d.os k) λ _. Quiet-plain d.os k)

    module _ (name payload : _) (other : (name == k) ≡ false) where
      Quiet-fill : Quiet k (fill d name payload)
      unfolding fill
      Quiet-fill =
          Quiet-bind k _ _ (Quiet-plain d.os k)
            λ _. Quiet-bind k _ _ (Quiet-write d.os k name other payload) λ _. Quiet-plain d.os k

      Quiet-replace : (snapshot_file == k) ≡ false → Quiet k (replace_snapshot d name payload)
      unfolding replace_snapshot
      Quiet-replace h = Quiet-bind k _ _ (Quiet-attempt k _ Quiet-fill) λ filled.
          Quiet-bind k _ _ (Quiet-attempt k _ (Quiet-plain d.os k)) λ closed.
            Quiet-bind k _ _ (Quiet-lift k _) λ _.
              Quiet-bind k _ _ (Quiet-rename d.os k name other snapshot_file h) λ _. Quiet-sync_dir

  -- A snapshot leaves the log alone.
  pub Quiet-snapshot : (s : State) → Quiet log_file (snapshot d s)
  unfolding snapshot
  Quiet-snapshot s = Quiet-bind log_file _ _ (Quiet-ensure log_file) λ _.
      Quiet-bind log_file _ _ (Quiet-now d.os log_file) λ at.
        Quiet-bind log_file _ _ (Quiet-or_raise log_file _ _) λ payload.
          Quiet-create_temp_bind d.os log_file _ temp_log λ n.
            Quiet-finally log_file _ _
              (Quiet-replace log_file (temp_name d.os n) payload (temp_log n) refl)
              (Quiet-remove d.os log_file (temp_name d.os n) (temp_log n))

  -- A temporary file that was filled without an error holds the whole payload.
  fill_lem :
      (name : String) (payload : Bytes) (disk : Disk)
      → lookup name disk.files ≡ some []
      → (fill d name payload disk).0 ≡ ok tt
      → lookup name (fill d name payload disk).1.files ≡ some payload
  unfolding fill plain call write ◌>>=◌
  fill_lem name payload disk empty h = elim (Option-cases (d.os.faults disk.calls)) [
    | inr (x, p) ↦ cc (rw p at h)
    | inl p ↦ elim (Option-cases (d.os.faults (suc disk.calls))) [
      | inr (x, q) ↦ cc (rw (p, q) at h)
      | inl q ↦ elim (Option-cases (d.os.faults (suc (suc disk.calls)))) [
        | inr (x, r) ↦ cc (rw (p, q, r) at h)
        | inl r ↦
            rw (p, q, r, empty)
              (rw (lookup-insert name name payload disk.files) (ground (arith, eq_iff name name)))
      ]
    ]
  ]

  -- Where the temporary file is whole, the snapshot stays or becomes the payload.
  rename_lem :
      (name : String) (payload : Bytes) (disk : Disk)
      → lookup name disk.files ≡ some payload
      → let disk' = ((rename d.os name snapshot_file >>= λ _. sync_dir d) disk).1 in
        (lookup snapshot_file disk'.files ≡ lookup snapshot_file disk.files)
        ⊎ (lookup snapshot_file disk'.files ≡ some payload)
  unfolding rename call ◌>>=◌
  rename_lem name payload disk whole = elim (Option-cases (d.os.faults disk.calls)) [
    | inr (x, p) ↦ inl (rw p refl)
    | inl p ↦ inr (
        rw (p, whole)
          ((Quiet-sync_dir snapshot_file).same _
            ∙ rw (lookup-insert snapshot_file snapshot_file payload (erase name disk.files)) refl))
  ]

  finish_lem :
      (r : Result (Unit {0})) (name : String) (payload : Bytes) (disk : Disk)
      → (r ≡ ok tt → lookup name disk.files ≡ some payload)
      → let disk' = (continue r (λ _. rename d.os name snapshot_file >>= λ _. sync_dir d) disk).1 in
        (lookup snapshot_file disk'.files ≡ lookup snapshot_file disk.files)
        ⊎ (lookup snapshot_file disk'.files ≡ some payload)
  finish_lem (ok tt) name payload disk h = rename_lem name payload disk (h refl)
  finish_lem (err e) name payload disk h = inl refl
  finish_lem panic name payload disk h = inl refl

  first_lem : (a b : Result (Unit {0})) → first_error a b ≡ ok tt → a ≡ ok tt
  first_lem (ok tt) b h = refl
  first_lem (err e) b h = cc
  first_lem panic b h = cc

  pub replace_lem :
      (name : String) (payload : Bytes) (disk : Disk)
      → (name == snapshot_file) ≡ false
      → lookup name disk.files ≡ some []
      → let disk' = (replace_snapshot d name payload disk).1 in
        (lookup snapshot_file disk'.files ≡ lookup snapshot_file disk.files)
        ⊎ (lookup snapshot_file disk'.files ≡ some payload)
  unfolding replace_snapshot attempt lift ◌>>=◌
  replace_lem name payload disk other empty =
      let (filled, disk₁) = fill d name payload disk in
      let (closed, disk₂) = plain d.os disk₁ in
      let steady : lookup snapshot_file disk₂.files ≡ lookup snapshot_file disk.files =
        (Quiet-plain d.os snapshot_file).same disk₁
        ∙ (Quiet-fill snapshot_file name payload other).same disk in
      let whole : first_error filled closed ≡ ok tt → lookup name disk₂.files ≡ some payload = λ h.
        (Quiet-plain d.os name).same disk₁
        ∙ fill_lem name payload disk empty (first_lem filled closed h) in
      elim (finish_lem (first_error filled closed) name payload disk₂ whole) [
        | inl p ↦ inl (p ∙ steady)
        | inr p ↦ inr p
      ]
