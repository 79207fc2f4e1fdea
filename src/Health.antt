-- ===== src/Health.antt =====
-- The health of a state (internal/health/health.go, detail.go).
pub mod Verdict
use go_prod22_go_project.Prelude.{
  ℕ, ℤ, pos, negsuc, ◌-ℤ◌, ltb_ℤ, String, Bool, true, false, not, ◌&&◌, ◌||◌, ◌==◌, if◌then◌else◌,
  List, [], ◌∷◌, length, eqb, sort_by,
}
use go_prod22_go_project.Prelude.Text.{str_ltb}
use go_prod22_go_project.Prelude.Map.{Map}
use go_prod22_go_project.Prelude.Map.Tally.{add_to}
use go_prod22_go_project.Domain.Status.{TaskStatus, task_status_eq}
use go_prod22_go_project.Domain.Model.{Device, Task, Time, Duration, is_zero, minute}
use go_prod22_go_project.Store.{State}
use go_prod22_go_project.Recovery
use go_prod22_go_project.Recovery.{inspect}

pub record Report : Type 0 where
  pub releases : ℕ
  pub devices : ℕ
  pub tasks : ℕ
  pub durable : Bool

abbrev pub check : State → Report
check st = record {
  releases = length st.releases;
  devices = length st.devices;
  tasks = length st.tasks;
  durable = true;
}

pub record Detail : Type 0 where
  pub report : Report
  pub recovery : Recovery.Report
  pub by_release : Map ℕ
  pub offline : List String
  pub stale : List String
  pub checked_at : Time

abbrev pub is_busy : Task → Bool
is_busy t =
    t.status == TaskStatus.leased
    || t.status == TaskStatus.installing
    || t.status == TaskStatus.awaiting

unfoldable pub busy_by_release : Map Task → Map ℕ → Map ℕ
unfolding add_to
busy_by_release [] out = out
busy_by_release ((id, t) ∷ m) out =
    let counted = busy_by_release m (add_to t.release_id 1 out) in
    let skipped = busy_by_release m out in if is_busy t then counted else skipped

-- `time.Time.Sub`, which stops at the ends of the range of a duration.
abbrev pub longest : Duration
longest = pos 9223372036854775807

abbrev pub shortest : Duration
shortest = negsuc 9223372036854775807

abbrev pub saturated : ℤ → Duration
saturated z = if ltb_ℤ longest z then longest else if ltb_ℤ z shortest then shortest else z

unfoldable pub sub : Time → Time → Duration
unfolding ◌-ℤ◌
sub t u = saturated (t -ℤ u)

abbrev pub ten_minutes : Duration
ten_minutes = pos 600000000000

unfoldable pub is_stale : Time → Device → Bool
unfolding sub
is_stale now d = not (is_zero d.last_seen) && ltb_ℤ ten_minutes (sub now d.last_seen)

-- The keys of the devices that pass a test.
unfoldable pub device_ids : (Device → Bool) → Map Device → List String
device_ids p [] = []
device_ids p ((id, d) ∷ m) = let rest = device_ids p m in if p d then id ∷ rest else rest

unfoldable pub detailed : State → Time → Detail
unfolding inspect busy_by_release device_ids is_stale str_ltb
detailed st now = record {
  report = check st;
  recovery = inspect st;
  by_release = busy_by_release st.tasks [];
  offline = sort_by str_ltb (device_ids (λ d. not d.online) st.devices);
  stale = sort_by str_ltb (device_ids (is_stale now) st.devices);
  checked_at = now;
}

unfoldable pub healthy : Detail → Bool
healthy d = eqb d.recovery.orphaned 0 && eqb (length d.recovery.errors) 0
