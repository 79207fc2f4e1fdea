-- ===== src/Domain/Model.antt =====
-- The records of internal/domain/model.go. `Time` counts nanoseconds from Go's zero time.
use go_prod22_go_project.Prelude.{ℤ, pos, ◌+ℤ◌, ltb_ℤ, String, Bool, List, ◌==◌, int_eq}
use go_prod22_go_project.Domain.Status.{ReleaseStatus, TaskStatus}

abbrev pub Time : Type 0
Time = ℤ

abbrev pub Duration : Type 0
Duration = ℤ

abbrev pub zero_time : Time
zero_time = pos 0

-- The methods of `time.Time` that the program calls.
abbrev pub is_zero : Time → Bool
is_zero t = t == zero_time

abbrev pub before : Time → Time → Bool
before t u = ltb_ℤ t u

abbrev pub after : Time → Time → Bool
after t u = ltb_ℤ u t

abbrev pub add : Time → Duration → Time
add t d = t +ℤ d

abbrev pub second : Duration
second = pos 1000000000

abbrev pub minute : Duration
minute = pos 60000000000

abbrev pub hour : Duration
hour = pos 3600000000000

pub record RollbackPolicy : Type 0 where
  pub max_failures : ℤ
  pub auto : Bool

pub record Release : Type 0 where
  pub id : String
  pub version : String
  pub devices : List String
  pub batch_size : ℤ
  pub max_concurrent : ℤ
  pub retry_limit : ℤ
  pub pause_window : Duration
  pub rollback : RollbackPolicy
  pub status : ReleaseStatus
  pub created_at : Time
  pub updated_at : Time
  pub completed : ℤ
  pub failed : ℤ

pub record Device : Type 0 where
  pub id : String
  pub firmware : String
  pub capabilities : List String
  pub registered_at : Time
  pub last_seen : Time
  pub online : Bool

pub record Task : Type 0 where
  pub id : String
  pub release_id : String
  pub device_id : String
  pub status : TaskStatus
  pub lease_owner : String
  pub lease_until : Time
  pub attempts : ℤ
  pub next_retry : Time
  pub updated_at : Time
  pub error : String
