-- ===== src/Domain/Release/Capacity.antt =====
-- What `Capacity` leaves free.
use go_prod22_go_project.Prelude.{
  arith, List, ℤ, ℕ, pos, ◌-ℤ◌, ◌+ℤ◌, ◌≤ℤ◌, ◌<ℤ◌, ◌≡◌, ◌⊎◌, count, IsInt64, int64_fits,
}
use go_prod22_go_project.Domain.Model.{Task, Release}
use go_prod22_go_project.Domain.Release.{capacity, counts_active, left_capacity}

left_capacity_lem :
    (limit batch_size : ℤ) (n : ℕ)
    → pos 0 ≤ℤ batch_size
    → let c = left_capacity (limit -ℤ pos n) batch_size in
      (pos 0 ≤ℤ c)
      × (c ≤ℤ batch_size)
      × (((limit ≤ℤ pos n) × (c ≡ pos 0))
          ⊎ ((pos n <ℤ limit) × (c +ℤ pos n ≤ℤ limit) × ((c ≡ batch_size) ⊎ (c +ℤ pos n ≡ limit))))
unfolding ◌-ℤ◌ ◌+ℤ◌
left_capacity_lem limit batch_size n h = ground arith

-- For a batch size that is not negative, and a concurrency limit less the running tasks (leased,
-- installing or awaiting ones of the release) that fits a 64-bit integer, the capacity is at least
-- 0 and at most the batch size. It is 0 where the running tasks have reached the limit, and where
-- they have not, it is the largest number that neither exceeds the batch size nor the limit with
-- the running tasks added: it is one of these two bounds.
pub capacity_bounds :
    (r : Release) (tasks : List Task)
    → pos 0 ≤ℤ r.batch_size
    → IsInt64 (r.max_concurrent -ℤ pos (count (counts_active r) tasks))
    → let n = pos (count (counts_active r) tasks) in
      let c = capacity r tasks in
      (pos 0 ≤ℤ c)
      × (c ≤ℤ r.batch_size)
      × (((r.max_concurrent ≤ℤ n) × (c ≡ pos 0))
          ⊎ ((n <ℤ r.max_concurrent)
              × (c +ℤ n ≤ℤ r.max_concurrent)
              × ((c ≡ r.batch_size) ⊎ (c +ℤ n ≡ r.max_concurrent))))
unfolding capacity
capacity_bounds r tasks h fits =
    rw (int64_fits _ fits)
      (left_capacity_lem r.max_concurrent r.batch_size (count (counts_active r) tasks) h)
