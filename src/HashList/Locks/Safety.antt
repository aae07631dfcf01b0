-- ===== src/HashList/Locks/Safety.antt =====
-- What the locks exclude, in every state that the threads can reach.
use hcfs.Base.{ℕ, ◌<◌, ◌≤◌, ◌≡◌, ◌≢◌, refl, arith}
use hcfs.Base.Family.{sum_below, weight-le_sum, one_thread}
use hcfs.HashList.Locks.{Pc, inside, global, System, Reach}
use hcfs.HashList.Locks.Inv.{is_global, is_counted, same, has_bucket, max_threads, Inv}
use hcfs.HashList.Locks.Moves.{Reach-Inv}

same_self : (b : ℕ) → 0 < same b b
same_self b = ground arith

-- In a state that fewer than 2^32 threads reach, two threads are never both between `_bucket_lock`
-- and `_bucket_unlock` for the same list.
pub bucket_lock_exclusion :
    (n : ℕ) (s : System) (b i j : ℕ)
    → n < max_threads
    → Reach n s
    → i < n
    → j < n
    → s.pc i ≡ inside b
    → s.pc j ≡ inside b
    → i ≡ j
bucket_lock_exclusion n s b i j few r lt lt' at_i at_j =
    one_thread (has_bucket b) n s.pc i j lt lt' (rw at_i (same_self b)) (rw at_j (same_self b))
      (omega (arith, (Reach-Inv few r).bucket b))

-- In a state that fewer than 2^32 threads reach, while a thread has the global lock no other thread
-- has it, and none is between `_bucket_lock` and `_bucket_unlock`, for any list.
pub global_lock_exclusion :
    (n : ℕ) (s : System) (i j : ℕ)
    → n < max_threads
    → Reach n s
    → i < n
    → j < n
    → s.pc i ≡ global
    → ((b : ℕ) → s.pc j ≢ inside b) × (s.pc j ≡ global → i ≡ j)
global_lock_exclusion n s i j few r lt lt' at_i = (
  λ b at_j.
      none_counted (weight-le_sum is_counted n s.pc j lt')
        (is_one is_counted (inside b) (s.pc j) at_j refl),
  λ at_j.
      one_thread is_global n s.pc i j lt lt' (rw at_i (omega arith)) (rw at_j (omega arith))
        (omega (arith, inv.table)),
)
  where
    inv : Inv n s.locks s.pc
    inv = Reach-Inv few r

    is_one : (w : Pc → ℕ) (p q : Pc) → q ≡ p → w p ≡ 1 → w q ≡ 1
    is_one w p q e h = rw (e, h)

    none_counted : {v : ℕ} → v ≤ sum_below is_counted n s.pc → v ≡ 1 → ⊥
    none_counted le e = ground (
      arith,
      le,
      e,
      inv.number,
      inv.confiscated,
      inv.table,
      weight-le_sum is_global n s.pc i lt,
      is_one is_global global (s.pc i) at_i refl,
    )
