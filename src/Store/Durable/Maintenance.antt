-- ===== src/Store/Durable/Maintenance.antt =====
-- The checks of the durable store (internal/store/maintenance.go).
pub mod Counts
use go_prod22_go_project.Prelude.{
  ℕ, suc, ℤ, Option, none, some, Bool, true, false, ◌==◌, if◌then◌else◌, List, [], ◌∷◌, int_eq,
}
use go_prod22_go_project.Domain.Errors.{Error, Result, ok, err, panic}
use go_prod22_go_project.Store.{State}
use go_prod22_go_project.Store.Lines.{Bytes, lines, scan}
use go_prod22_go_project.Store.Disk.{Disk, Io, Contents, found, missing, failed, read_file, stat}
use go_prod22_go_project.Store.Durable.{
  DurableStore, Envelope, log_file, buffer_size, scan_error, snapshot,
}

pub record Integrity : Type 0 where
  pub records : ℕ
  pub invalid : ℕ
  pub bytes : ℕ
  pub version : ℤ
  pub error : Option Error

-- A size that is left at zero where it cannot be asked for.
abbrev pub size_or_zero : Result ℕ → ℕ
size_or_zero (ok n) = n
size_or_zero (err e) = 0
size_or_zero panic = 0

module _ (d : DurableStore) where
  abbrev pub is_current : Option Envelope → Bool
  is_current none = false
  is_current (some env) = env.version == d.version

  unfoldable pub count_records : List Bytes → Integrity → Integrity
  count_records [] out = out
  count_records (line ∷ ls) out =
      let valid = count_records ls (record out { records = suc out.records }) in
      let spoiled = count_records ls (record out { invalid = suc out.invalid }) in
      if is_current (d.records.unmarshal line) then valid else spoiled

  abbrev pub no_records : Integrity
  no_records = record { records = 0; invalid = 0; bytes = 0; version = d.version; error = none }

  abbrev pub check_log : Contents → Disk → Integrity × Disk
  check_log missing disk = (no_records, disk)
  check_log (failed e) disk = (record no_records { error = some e }, disk)
  check_log (found b) disk =
      let (sized, disk') = stat d.os log_file disk in
      let (ls, long) = scan buffer_size (lines b) in
      (
        record (count_records ls (record no_records { bytes = size_or_zero sized })) {
          error = scan_error long;
        },
        disk',
      )

  unfoldable pub check : Disk → Integrity × Disk
  unfolding count_records
  check disk = let (log, disk') = read_file d.os log_file disk in check_log log disk'

  unfoldable pub compact : State → Io (Unit {0})
  compact s = snapshot d s

  unfoldable pub event_count : Disk → ℕ × Disk
  unfolding check
  event_count disk = let (out, disk') = check disk in (out.records, disk')
