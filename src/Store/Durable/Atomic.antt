-- ===== src/Store/Durable/Atomic.antt =====
-- A snapshot is replaced as a whole or not at all, whatever calls fail.
use go_prod22_go_project.Prelude.{
  suc, Option, none, some, ◌≡◌, refl, ◌∙◌, [], arith, eq_iff, Option-cases, inl, inr, ◌⊎◌,
}
use go_prod22_go_project.Prelude.Map.{lookup, insert, lookup-insert}
use go_prod22_go_project.Domain.Model.{Time}
use go_prod22_go_project.Domain.Errors.{Result, ok, err, panic, message}
use go_prod22_go_project.Store.{State}
use go_prod22_go_project.Store.Lines.{Bytes}
use go_prod22_go_project.Store.Disk.{
  Disk, Io, pure, or_raise, finally, ◌>>=◌, continue, call, create_temp, remove, temp_name,
}
use go_prod22_go_project.Store.Disk.Quiet.{Quiet, Quiet-now, Quiet-remove, inserted}
use go_prod22_go_project.Store.Durable.{
  DurableStore, log_file, snapshot_file, replace_snapshot, snapshot,
}
use go_prod22_go_project.Store.Durable.Replace.{
  temp_snapshot, Quiet-ensure, Quiet-snapshot, replace_lem,
}

module _ (d : DurableStore) where
  -- What a command makes of the snapshot's file: it is left alone, or replaced by a text of a kind.
  record Swaps {A : Type 0} (P : Bytes → Type 0) (m : Io A) : Type 0 where
    same :
        (disk : Disk)
        → (lookup snapshot_file (m disk).1.files ≡ lookup snapshot_file disk.files)
          ⊎ ((b : Bytes) × P b × (lookup snapshot_file (m disk).1.files ≡ some b))

  continue-Swaps :
      {A B : Type 0} (P : Bytes → Type 0) (x : Result A × Disk) (f : A → Io B)
      → ((a : A) → Swaps P (f a))
      → (lookup snapshot_file (continue x.0 f x.1).1.files ≡ lookup snapshot_file x.1.files)
        ⊎ ((b : Bytes) × P b × (lookup snapshot_file (continue x.0 f x.1).1.files ≡ some b))
  continue-Swaps P (ok a, disk) f q = (q a).same disk
  continue-Swaps P (err e, disk) f q = inl refl
  continue-Swaps P (panic, disk) f q = inl refl

  Swaps-bind :
      {A B : Type 0} (P : Bytes → Type 0) (m : Io A) (f : A → Io B)
      → Quiet snapshot_file m
      → ((a : A) → Swaps P (f a))
      → Swaps P (m >>= f)
  unfolding ◌>>=◌
  Swaps-bind P m f q qf = record {
    same = λ disk. elim (continue-Swaps P (m disk) f qf) [
      | inl p ↦ inl (p ∙ q.same disk)
      | inr p ↦ inr p
    ];
  }

  swap_temp :
      (P : Bytes → Type 0) (payload : Bytes)
      → P payload
      → Swaps P (
          create_temp d.os >>= λ name. finally (replace_snapshot d name payload) (remove d.os name))
  unfolding create_temp call finally pure ◌>>=◌
  swap_temp P payload fits = record {
    same = λ disk.
        let name = temp_name d.os disk.calls in
        let made : Disk = record { files = insert name [] disk.files; calls = suc disk.calls } in
        let other = temp_snapshot d disk.calls in
        elim (Option-cases (d.os.faults disk.calls)) [
          | inr (x, p) ↦ inl (rw p refl)
          | inl p ↦
              let empty : lookup name made.files ≡ some [] =
                rw (lookup-insert name name [] disk.files) (ground (arith, eq_iff name name)) in
              let kept = (Quiet-remove d.os snapshot_file name other).same _ in
              elim (replace_lem d name payload made other empty) [
                | inl q ↦
                    inl (rw p (kept ∙ q ∙ inserted d.os snapshot_file name other [] disk.files))
                | inr q ↦ inr (payload, fits, rw p (kept ∙ q))
              ]
        ];
  }

  -- The snapshot is one that was made of the state.
  abbrev pub Snaps : State → Bytes → Type 0
  Snaps s b =
      (at : Time) × (d.snapshots.marshal
          (record { version = d.version; state = s; written_at = at })
        ≡ some b)

  swap_encoded :
      (s : State) (at : Time) (o : Option Bytes)
      → d.snapshots.marshal (record { version = d.version; state = s; written_at = at }) ≡ o
      → Swaps (Snaps s) (
          or_raise o (message "encode snapshot") >>= λ payload.
          create_temp d.os >>= λ name. finally (replace_snapshot d name payload) (remove d.os name))
  unfolding or_raise ◌>>=◌
  swap_encoded s at none e = record { same = λ disk. inl refl }
  swap_encoded s at (some b) e = record { same = λ disk. (swap_temp (Snaps s) b (at, e)).same disk }

  snapshot-Swaps : (s : State) → Swaps (Snaps s) (snapshot d s)
  unfolding snapshot
  snapshot-Swaps s =
      Swaps-bind (Snaps s) _ _ (Quiet-ensure d snapshot_file)
        λ _. Swaps-bind (Snaps s) _ _ (Quiet-now d.os snapshot_file) λ at. swap_encoded s at _ refl

  -- Whatever calls fail, and however much a failing write has written: after `Snapshot` the
  -- snapshot's file is the one before or a whole encoding of the state, and the log is as before.
  pub snapshot_atomic :
      (s : State) (disk : Disk)
      → let disk' = (snapshot d s disk).1 in
        (lookup log_file disk'.files ≡ lookup log_file disk.files)
        × ((lookup snapshot_file disk'.files ≡ lookup snapshot_file disk.files)
            ⊎ ((b : Bytes) × Snaps s b × (lookup snapshot_file disk'.files ≡ some b)))
  snapshot_atomic s disk = ((Quiet-snapshot d s).same disk, (snapshot-Swaps s).same disk)
