-- ===== src/Domain/Task/Retry.antt =====
-- The backoff of a task that failed or was rejected.
use Prim.Native.Nat.{min as min_ℕ}
use go_prod22_go_project.Prelude.{
  ℤ, ℕ, zero, suc, ◌+◌, ◌*◌, ◌^◌, ◌≤◌, ◌<◌, ◌≡◌, true, none, some, arith, ◌-ℤ◌, ◌*ℤ◌, sub_ℕ, ap,
  pos, int64, int64_fits, ◌≤ℤ◌, String,
}
use go_prod22_go_project.Domain.Status.{TaskStatus}
use go_prod22_go_project.Domain.Model.{Task, Time, Duration, add}
use go_prod22_go_project.Domain.Task.{schedule_retry, release_lease, delay, min}

-- `2 ^ n` up to the eighth doubling.
power_small : (n : ℕ) → n ≤ 8 → (1 ≤ 2 ^ n) × (2 ^ n ≤ 256)
power_small zero h = omega arith
power_small (suc zero) h = omega arith
power_small (suc (suc zero)) h = omega arith
power_small (suc (suc (suc zero))) h = omega arith
power_small (suc (suc (suc (suc zero)))) h = omega arith
power_small (suc (suc (suc (suc (suc zero))))) h = omega arith
power_small (suc (suc (suc (suc (suc (suc zero)))))) h = omega arith
power_small (suc (suc (suc (suc (suc (suc (suc zero))))))) h = omega arith
power_small (suc (suc (suc (suc (suc (suc (suc (suc n)))))))) h =
    let e : n ≡ 0 = omega arith in rw e (omega arith)

power-le : (n : ℕ) → (1 ≤ 2 ^ min_ℕ n 8) × (2 ^ min_ℕ n 8 ≤ 256)
power-le n = power_small (min_ℕ n 8) (omega arith)

-- The task that waits out a backoff of `d`.
abbrev pub retrying : String → Time → Duration → Task → Task
retrying reason now d t = record (release_lease t) {
  status = TaskStatus.rejected;
  error = reason;
  updated_at = now;
  next_retry = add now d;
}

shift_count : (n : ℕ) → n < 2 ^ 63 → int64 (pos (suc n) -ℤ pos 1) ≡ pos n
unfolding ◌-ℤ◌
shift_count n h = rw (sub_one n) (int64_fits (pos n) (omega arith))
  where
    sub_one : (n : ℕ) → sub_ℕ (suc n + 0) (0 + 1) ≡ pos n
    sub_one n = ground arith

min_pos : (n : ℕ) → min (pos n) (pos 8) ≡ pos (min_ℕ n 8)
min_pos n = ground arith

times_pos : (a b : ℕ) → pos a *ℤ pos b ≡ pos (a * b)
unfolding ◌*ℤ◌
times_pos a b = ground arith

delay_lem :
    (base n : ℕ)
    → n < 2 ^ 63
    → base * 2 ^ min_ℕ n 8 < 2 ^ 63
    → delay (pos base) (min (int64 (pos (suc n) -ℤ pos 1)) (pos 8))
      ≡ some (pos (base * 2 ^ min_ℕ n 8))
delay_lem base n h b =
    rw (shift_count n h, min_pos n, times_pos base (2 ^ min_ℕ n 8))
      (ap some (int64_fits (pos (base * 2 ^ min_ℕ n 8)) (b, omega arith)))

schedule_retry_within :
    (t : Task) (now : Time) (base : Duration) (limit : ℤ) (reason : String) (d : Duration)
    → t.attempts ≤ℤ limit
    → delay base (min (int64 (t.attempts -ℤ pos 1)) (pos 8)) ≡ some d
    → schedule_retry t now base limit reason ≡ (retrying reason now d t, some true)
unfolding schedule_retry
schedule_retry_within t now base limit reason d l e = ground arith

-- Within its limit, a task with n + 1 attempts, n below 2^63, is rejected without a lease and may
-- retry after the base delay doubled n times, eight times at most: between the base delay and 256
-- times it, where that fits int64.
pub schedule_retry_backoff :
    (t : Task) (now : Time) (base : ℕ) (limit : ℤ) (reason : String) (n : ℕ)
    → t.attempts ≡ pos (suc n)
    → n < 2 ^ 63
    → t.attempts ≤ℤ limit
    → base * 256 < 2 ^ 63
    → let d = base * 2 ^ min_ℕ n 8 in
      (schedule_retry t now (pos base) limit reason ≡ (retrying reason now (pos d) t, some true))
      × (base ≤ d)
      × (d ≤ base * 256)
schedule_retry_backoff t now base limit reason n e m l b =
    let (lo, hi) = power-le n in
    let small : base * 2 ^ min_ℕ n 8 ≤ base * 256 = grind arith in
    (
      schedule_retry_within t now (pos base) limit reason _ l
          (rw e (delay_lem base n m (omega arith))),
      grind arith,
      small,
    )

-- A task with no attempts, under a limit that is not negative, makes the shift count negative: the
-- call panics, and leaves the task rejected, without its lease.
pub schedule_retry_panics :
    (t : Task) (now : Time) (base : Duration) (limit : ℤ) (reason : String)
    → t.attempts ≡ pos 0
    → pos 0 ≤ℤ limit
    → schedule_retry t now base limit reason ≡ (
      record (release_lease t) { status = TaskStatus.rejected; error = reason; updated_at = now },
      none,
    )
unfolding schedule_retry int64 ◌-ℤ◌
schedule_retry_panics t now base limit reason e l = rw e (ground arith)
