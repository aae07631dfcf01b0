-- ===== src/HashList/Locks/Inv.antt =====
-- What the semaphores count.
use hcfs.Base.{ℕ, ◌+◌, ◌^◌, ◌<◌, ◌≡◌, ◌⊎◌, ◌==◌, if◌then◌else◌}
use hcfs.Base.Family.{sum_below}
use hcfs.HashList.Locks.{
  Locks, Pc, outside, got_bucket, got_table, got_shared, got_can, counted, shared_posted, inside,
  unlocking, uncounted, released, posted, waits_can, global, giving,
}

-- The holder of `table_sem`, other than with the global lock.
abbrev pub has_table : Pc → ℕ
has_table (got_table b) = 1
has_table (got_shared b) = 1
has_table (got_can b) = 1
has_table (counted b) = 1
has_table (shared_posted b) = 1
has_table waits_can = 1
has_table giving = 1
has_table _ = 0

abbrev pub is_global : Pc → ℕ
is_global global = 1
is_global _ = 0

-- The holder of `shared_var_sem`, but for `got_can` and `uncounted`.
abbrev pub has_shared : Pc → ℕ
has_shared (got_shared b) = 1
has_shared (counted b) = 1
has_shared (unlocking b) = 1
has_shared (released b) = 1
has_shared _ = 0

abbrev pub has_can : Pc → ℕ
has_can (got_can b) = 1
has_can _ = 0

abbrev pub is_uncounted : Pc → ℕ
is_uncounted (uncounted b) = 1
is_uncounted _ = 0

-- The threads that `num_lock_bucket` counts.
abbrev pub is_counted : Pc → ℕ
is_counted (counted b) = 1
is_counted (shared_posted b) = 1
is_counted (inside b) = 1
is_counted (unlocking b) = 1
is_counted _ = 0

abbrev pub same : ℕ → ℕ → ℕ
same b c = if b == c then 1 else 0

-- The holder of the semaphore of list `c`.
abbrev pub has_bucket : ℕ → Pc → ℕ
has_bucket c (got_bucket b) = same b c
has_bucket c (got_table b) = same b c
has_bucket c (got_shared b) = same b c
has_bucket c (got_can b) = same b c
has_bucket c (counted b) = same b c
has_bucket c (shared_posted b) = same b c
has_bucket c (inside b) = same b c
has_bucket c (unlocking b) = same b c
has_bucket c (uncounted b) = same b c
has_bucket c (released b) = same b c
has_bucket c (posted b) = same b c
has_bucket c outside = 0
has_bucket c waits_can = 0
has_bucket c global = 0
has_bucket c giving = 0

abbrev pub max_threads : ℕ
max_threads = 2 ^ 32

-- `can_lock_table_sem` is with a thread that has the global lock or is about to count or to give
-- back, or with the counted threads together.
abbrev pub IsConfiscated : Locks → (g k u : ℕ) → Type 0
IsConfiscated m g k u =
    ((m.num_lock_bucket ≡ 0) × (m.can_lock_table_sem + g + k + u ≡ 1))
    ⊎ ((0 < m.num_lock_bucket) × (m.can_lock_table_sem + g + k ≡ 0))

pub record Inv (n : ℕ) (m : Locks) (pc : ℕ → Pc) : Type 0 where
  pub few : n < max_threads
  pub table : m.table_sem + sum_below has_table n pc + sum_below is_global n pc ≡ 1
  pub shared :
      m.shared_var_sem
        + sum_below has_shared n pc
        + sum_below has_can n pc
        + sum_below is_uncounted n pc
      ≡ 1
  pub number : m.num_lock_bucket ≡ sum_below is_counted n pc
  pub confiscated :
      IsConfiscated m
        (sum_below is_global n pc)
        (sum_below has_can n pc)
        (sum_below is_uncounted n pc)
  pub bucket : (c : ℕ) → m.bucket_sem c + sum_below (has_bucket c) n pc ≡ 1
