-- ===== src/Store/Disk.antt =====
-- The directory of a store, and the calls of Go's package `os` on it. Each call may fail: it then
-- has no effect, but for a write, which may have written a part.
pub mod Quiet
use go_prod22_go_project.Prelude.{
  ℕ, suc, String, Option, none, some, Bool, true, false, List, [], ◌∷◌, ◌++◌, length, take,
}
use go_prod22_go_project.Prelude.Map.{Map, lookup, insert, erase}
use go_prod22_go_project.Prelude.Text.{join}
use go_prod22_go_project.Domain.Model.{Time}
use go_prod22_go_project.Domain.Errors.{Error, Result, ok, err, panic}
use go_prod22_go_project.Store.Lines.{Bytes}

-- The files under their names in the directory, and the number of calls made.
pub record Disk : Type 0 where
  pub files : Map Bytes
  pub calls : ℕ

pub record Fault : Type 0 where
  pub cause : Error
  pub written : ℕ

-- What the operating system answers to each call: its fault, the random part of a temporary name,
-- the time.
pub record Os : Type 0 where
  pub faults : ℕ → Option Fault
  pub random : ℕ → String
  pub time : ℕ → Time
  pub windows : Bool

abbrev pub Io : Type 0 → Type 0
Io A = Disk → Result A × Disk

module _ {A : Type 0} where
  unfoldable pub pure : A → Io A
  pure a disk = (ok a, disk)

  unfoldable pub lift : Result A → Io A
  lift r disk = (r, disk)

  unfoldable pub or_raise : Option A → Error → Io A
  or_raise none e disk = (err e, disk)
  or_raise (some a) e disk = (ok a, disk)

  -- A call whose error is kept for later.
  unfoldable pub attempt : Io A → Io (Result A)
  attempt m disk = let (r, disk') = m disk in (ok r, disk')

  -- `defer`: a call that is made at the end, and whose error is dropped.
  unfoldable pub finally : Io A → Io (Unit {0}) → Io A
  finally m last disk = let (r, disk') = m disk in (r, (last disk').1)

unfoldable pub guard : Bool → Error → Io (Unit {0})
guard true e disk = (ok tt, disk)
guard false e disk = (err e, disk)

module _ {A B : Type 0} where
  abbrev pub continue : Result A → (A → Io B) → Io B
  continue (ok a) f disk = f a disk
  continue (err e) f disk = (err e, disk)
  continue panic f disk = (panic, disk)

  infixl 10 ◌>>=◌ ◌>>◌
  unfoldable pub ◌>>=◌ : Io A → (A → Io B) → Io B
  unfolding pure lift or_raise guard attempt finally
  ◌>>=◌ m f disk = let (r, disk') = m disk in continue r f disk'

  abbrev pub ◌>>◌ : Io A → Io B → Io B
  m >> n = m >>= λ _. n

-- What a call finds under a name.
pub data Contents : Type 0 where
  found : Bytes → Contents
  missing : Contents
  failed : Error → Contents

abbrev pub contents : Option Bytes → Contents
contents none = missing
contents (some b) = found b

abbrev pub created : String → Option Bytes → Map Bytes → Map Bytes
created name none files = insert name [] files
created name (some b) files = files

abbrev pub extended : String → Bytes → Option Bytes → Map Bytes → Map Bytes
extended name bytes none files = files
extended name bytes (some b) files = insert name (b ++ bytes) files

abbrev pub moved : String → String → Option Bytes → Map Bytes → Map Bytes
moved from to none files = files
moved from to (some b) files = insert to b (erase from files)

abbrev pub shortened : String → ℕ → Option Bytes → Map Bytes → Map Bytes
shortened name size none files = files
shortened name size (some b) files = insert name (take size b) files

abbrev pub size_of : Option Bytes → ℕ
size_of none = 0
size_of (some b) = length b

module _ (os : Os) where
  abbrev pub called : Option Fault → (Map Bytes → Map Bytes) → Io (Unit {0})
  called none f disk = (ok tt, record disk { files = f disk.files; calls = suc disk.calls })
  called (some fault) f disk = (err fault.cause, record disk { calls = suc disk.calls })

  unfoldable pub call : (Map Bytes → Map Bytes) → Io (Unit {0})
  call f disk = called (os.faults disk.calls) f disk

  -- `MkdirAll`, `Chmod`, `Sync` and `Close` leave the contents alone.
  unfoldable pub plain : Io (Unit {0})
  unfolding call
  plain = call (λ files. files)

  unfoldable pub open_append : String → Io (Unit {0})
  unfolding call
  open_append name = call (λ files. created name (lookup name files) files)

  abbrev pub wrote : Option Fault → String → Bytes → Io (Unit {0})
  wrote none name bytes disk = (
    ok tt,
    record disk {
      files = extended name bytes (lookup name disk.files) disk.files;
      calls = suc disk.calls;
    },
  )
  wrote (some fault) name bytes disk = (
    err fault.cause,
    record disk {
      files = extended name (take fault.written bytes) (lookup name disk.files) disk.files;
      calls = suc disk.calls;
    },
  )

  -- A write at the end of an open file.
  unfoldable pub write : String → Bytes → Io (Unit {0})
  write name bytes disk = wrote (os.faults disk.calls) name bytes disk

  abbrev pub temp_name : ℕ → String
  temp_name n = join "snapshot-" (join (os.random n) ".tmp")

  unfoldable pub create_temp : Io String
  unfolding call ◌>>=◌
  create_temp disk =
      let name = temp_name disk.calls in (call (insert name []) >>= λ _. pure name) disk

  unfoldable pub rename : String → String → Io (Unit {0})
  unfolding call
  rename from to = call (λ files. moved from to (lookup from files) files)

  unfoldable pub remove : String → Io (Unit {0})
  unfolding call
  remove name = call (erase name)

  unfoldable pub truncate : String → ℕ → Io (Unit {0})
  unfolding call
  truncate name size = call (λ files. shortened name size (lookup name files) files)

  unfoldable pub stat : String → Io ℕ
  unfolding plain ◌>>=◌
  stat name disk = (plain >>= λ _. pure (size_of (lookup name disk.files))) disk

  abbrev pub looked : Option Fault → Option Bytes → Contents
  looked none b = contents b
  looked (some fault) b = failed fault.cause

  -- `ReadFile`, and `Open` with the reads that follow.
  unfoldable pub read_file : String → Disk → Contents × Disk
  read_file name disk = (
    looked (os.faults disk.calls) (lookup name disk.files),
    record disk { calls = suc disk.calls },
  )

  unfoldable pub now : Io Time
  now disk = (ok (os.time disk.calls), record disk { calls = suc disk.calls })
