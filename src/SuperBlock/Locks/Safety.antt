-- ===== src/SuperBlock/Locks/Safety.antt =====
-- What the locks of the super block exclude, in every state that the threads can reach.
use hcfs.Base.{ℕ, ◌<◌, ◌≤◌, ◌≡◌, ◌≢◌, arith}
use hcfs.Base.Family.{sum_below, weight-le_sum, one_thread}
use hcfs.SuperBlock.Locks.{Pc, sharing, refused, exclusive, System, Reach}
use hcfs.SuperBlock.Locks.Inv.{is_exclusive, is_counted, is_refused, Inv}
use hcfs.SuperBlock.Locks.Moves.{Reach-Inv}

module _ (n : ℕ) (s : System) (r : Reach n s) where
  inv : Inv n s.locks s.pc
  inv = Reach-Inv r

  weight_at : (w : Pc → ℕ) (p : Pc) (j : ℕ) → j < n → s.pc j ≡ p → w p ≤ sum_below w n s.pc
  weight_at w p j lt e = let le = weight-le_sum w n s.pc j lt in rw e at le

-- In every state that the threads reach, while a thread has the exclusive lock of the super block,
-- no other thread has it, and none has the shared lock.
pub exclusive_lock_exclusion :
    (n : ℕ) (s : System) (i j : ℕ)
    → Reach n s
    → i < n
    → j < n
    → s.pc i ≡ exclusive
    → (s.pc j ≢ sharing) × (s.pc j ≡ exclusive → i ≡ j)
exclusive_lock_exclusion n s i j r lt lt' at_i = (
  λ at_j. none_sharing (weight_at n s r is_counted sharing j lt' at_j),
  λ at_j.
      one_thread is_exclusive n s.pc i j lt lt' (rw at_i (omega arith)) (rw at_j (omega arith))
        (omega (arith, (inv n s r).exclusives)),
)
  where
    none_sharing : 1 ≤ sum_below is_counted n s.pc → ⊥
    none_sharing some_sharing = ground (
      arith,
      some_sharing,
      (inv n s r).number,
      (inv n s r).taken,
      weight_at n s r is_exclusive exclusive i lt at_i,
    )

-- In every state that the threads reach, none of them, each of which releases only a shared lock
-- that it has, is on the way to the error -1 of `super_block_share_release`.
pub share_release_not_refused : (n : ℕ) (s : System) (i : ℕ) → Reach n s → i < n → s.pc i ≢ refused
share_release_not_refused n s i r lt at_i =
    omega (arith, weight_at n s r is_refused refused i lt at_i, (inv n s r).none_refused)
