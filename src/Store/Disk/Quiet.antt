-- ===== src/Store/Disk/Quiet.antt =====
-- Calls that leave a file alone, whether they fail or not.
use go_prod22_go_project.Prelude.{
  ℕ, String, Option, none, some, Bool, true, false, ◌==◌, ◌≡◌, refl, ◌∙◌, [], ◌++◌, string_eq,
  Option-cases, inl, inr, if◌then◌else◌, take,
}
use go_prod22_go_project.Prelude.Map.{Map, lookup, insert, erase, lookup-insert, lookup-erase}
use go_prod22_go_project.Domain.Errors.{Error, Result, ok, err, panic}
use go_prod22_go_project.Store.Lines.{Bytes}
use go_prod22_go_project.Store.Disk.{
  Disk, Os, Io, pure, lift, or_raise, attempt, finally, guard, ◌>>=◌, continue, plain, call, write,
  extended, create_temp, rename, remove, temp_name, moved, now,
}

pub record Quiet {A : Type 0} (k : String) (m : Io A) : Type 0 where
  pub same : (disk : Disk) → lookup k (m disk).1.files ≡ lookup k disk.files

module _ {A : Type 0} (k : String) where
  pub Quiet-pure : (a : A) → Quiet k (pure a)
  unfolding pure
  Quiet-pure a = record { same = λ disk. refl }

  pub Quiet-lift : (r : Result A) → Quiet k (lift r)
  unfolding lift
  Quiet-lift r = record { same = λ disk. refl }

  pub Quiet-or_raise : (o : Option A) (e : Error) → Quiet k (or_raise o e)
  unfolding or_raise
  Quiet-or_raise none e = record { same = λ disk. refl }
  Quiet-or_raise (some a) e = record { same = λ disk. refl }

  pub Quiet-if : (b : Bool) (m n : Io A) → Quiet k m → Quiet k n → Quiet k (if b then m else n)
  Quiet-if true m n qm qn = qm
  Quiet-if false m n qm qn = qn

  pub Quiet-attempt : (m : Io A) → Quiet k m → Quiet k (attempt m)
  unfolding attempt
  Quiet-attempt m q = record { same = λ disk. q.same disk }

  pub Quiet-finally :
      (m : Io A) (last : Io (Unit {0})) → Quiet k m → Quiet k last → Quiet k (finally m last)
  unfolding finally
  Quiet-finally m last q l = record { same = λ disk. l.same (m disk).1 ∙ q.same disk }

  continue_same :
      {B : Type 0} (x : Result A × Disk) (f : A → Io B)
      → ((a : A) → Quiet k (f a))
      → lookup k (continue x.0 f x.1).1.files ≡ lookup k x.1.files
  continue_same (ok a, disk) f q = (q a).same disk
  continue_same (err e, disk) f q = refl
  continue_same (panic, disk) f q = refl

  pub Quiet-bind :
      {B : Type 0} (m : Io A) (f : A → Io B)
      → Quiet k m
      → ((a : A) → Quiet k (f a))
      → Quiet k (m >>= f)
  unfolding ◌>>=◌
  Quiet-bind m f q qf = record { same = λ disk. continue_same (m disk) f qf ∙ q.same disk }

module _ (os : Os) (k : String) where
  pub Quiet-guard : (b : Bool) (e : Error) → Quiet k (guard b e)
  unfolding guard
  Quiet-guard true e = record { same = λ disk. refl }
  Quiet-guard false e = record { same = λ disk. refl }

  pub Quiet-call :
      (f : Map Bytes → Map Bytes)
      → ((files : Map Bytes) → lookup k (f files) ≡ lookup k files)
      → Quiet k (call os f)
  unfolding call
  Quiet-call f q = record {
    same = λ disk. elim (Option-cases (os.faults disk.calls)) [
      | inl p ↦ rw p (q disk.files)
      | inr (x, p) ↦ rw p refl
    ];
  }

  pub Quiet-plain : Quiet k (plain os)
  unfolding plain
  Quiet-plain = Quiet-call (λ files. files) (λ files. refl)

  pub Quiet-now : Quiet k (now os)
  unfolding now
  Quiet-now = record { same = λ disk. refl }

  module _ (name : String) (other : (name == k) ≡ false) where
    pub inserted : (b : Bytes) (files : Map Bytes) → lookup k (insert name b files) ≡ lookup k files
    inserted b files = rw (lookup-insert name k b files, other) refl

    erased : (files : Map Bytes) → lookup k (erase name files) ≡ lookup k files
    erased files = rw (lookup-erase name k files, other) refl

    pub extended_same :
        (b : Bytes) (o : Option Bytes) (files : Map Bytes)
        → lookup k (extended name b o files) ≡ lookup k files
    extended_same b none files = refl
    extended_same b (some c) files = inserted (c ++ b) files

    pub Quiet-write : (b : Bytes) → Quiet k (write os name b)
    unfolding write
    Quiet-write b = record {
      same = λ disk. elim (Option-cases (os.faults disk.calls)) [
        | inl p ↦ rw p (extended_same b (lookup name disk.files) disk.files)
        | inr (x, p) ↦ rw p (extended_same (take x.written b) (lookup name disk.files) disk.files)
      ];
    }

    pub Quiet-remove : Quiet k (remove os name)
    unfolding remove
    Quiet-remove = Quiet-call (erase name) erased

    moved_same :
        (to : String) (o : Option Bytes) (files : Map Bytes)
        → (to == k) ≡ false
        → lookup k (moved name to o files) ≡ lookup k files
    moved_same to none files h = refl
    moved_same to (some b) files h = rw (lookup-insert to k b (erase name files), h) (erased files)

    pub Quiet-rename : (to : String) → (to == k) ≡ false → Quiet k (rename os name to)
    unfolding rename
    Quiet-rename to h =
        Quiet-call (λ files. moved name to (lookup name files) files)
          (λ files. moved_same to (lookup name files) files h)

  pub Quiet-create_temp_bind :
      {A : Type 0} (f : String → Io A)
      → ((n : ℕ) → (temp_name os n == k) ≡ false)
      → ((n : ℕ) → Quiet k (f (temp_name os n)))
      → Quiet k (create_temp os >>= f)
  unfolding create_temp call pure ◌>>=◌
  Quiet-create_temp_bind f other q = record {
    same = λ disk. elim (Option-cases (os.faults disk.calls)) [
      | inl p ↦ rw p (
          (q disk.calls).same _
          ∙ inserted (temp_name os disk.calls) (other disk.calls) [] disk.files)
      | inr (x, p) ↦ rw p refl
    ];
  }
