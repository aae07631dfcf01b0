-- ===== src/SuperBlock/Locks.antt =====
-- The shared and exclusive locks of the super block (`super_block_share_locking` and its kin in
-- src/HCFS/super_block.c): threads that take and release them, a semaphore or a shared access at a
-- time, interleaved in any order. A thread releases only the lock that it has.
pub mod Inv
pub mod Moves
pub mod Safety
pub mod Progress
mod Tests
use hcfs.Base.{ℕ, ◌+◌, ◌-◌, ◌%◌, ◌^◌, ◌<◌, ◌≡◌, ◌≢◌}
use hcfs.Base.Tables.{update}

-- The values of the semaphores, and `share_counter`, which is at most the number of threads and has
-- no bound here.
pub record Locks : Type 0 where
  pub exclusive_lock_sem : ℕ
  pub share_lock_sem : ℕ
  pub share_cr_lock_sem : ℕ
  pub share_counter : ℕ

-- Where a thread stands: in `super_block_share_locking` up to `sharing`, in
-- `super_block_share_release` up to `share_posted`, with the exclusive lock from `waits_share`.
pub data Pc : Type 0 where
  outside : Pc
  got_exclusive got_cr got_share counted cr_posted sharing : Pc
  releasing refused uncounted share_posted : Pc
  waits_share exclusive giving : Pc

-- One step of one thread. A wait for a semaphore is a step only where its value is not 0.
pub data Move (m : Locks) : Pc → Locks → Pc → Type 0 where
  wait_exclusive :
      0 < m.exclusive_lock_sem
      → Move m outside (record m { exclusive_lock_sem = m.exclusive_lock_sem - 1 }) got_exclusive
  wait_cr :
      0 < m.share_cr_lock_sem
      → Move m got_exclusive (record m { share_cr_lock_sem = m.share_cr_lock_sem - 1 }) got_cr
  wait_share :
      m.share_counter ≡ 0
      → 0 < m.share_lock_sem
      → Move m got_cr (record m { share_lock_sem = m.share_lock_sem - 1 }) got_share
  count_first : Move m got_share (record m { share_counter = m.share_counter + 1 }) counted
  count_more :
      m.share_counter ≢ 0 → Move m got_cr (record m { share_counter = m.share_counter + 1 }) counted
  post_cr : Move m counted (record m { share_cr_lock_sem = m.share_cr_lock_sem + 1 }) cr_posted
  post_exclusive :
      Move m cr_posted (record m { exclusive_lock_sem = m.exclusive_lock_sem + 1 }) sharing
  release_wait_cr :
      0 < m.share_cr_lock_sem
      → Move m sharing (record m { share_cr_lock_sem = m.share_cr_lock_sem - 1 }) releasing
  refuse : m.share_counter ≡ 0 → Move m releasing m refused
  refused_post_cr :
      Move m refused (record m { share_cr_lock_sem = m.share_cr_lock_sem + 1 }) outside
  uncount :
      m.share_counter ≢ 0
      → Move m releasing (record m { share_counter = m.share_counter - 1 }) uncounted
  post_share :
      m.share_counter ≡ 0
      → Move m uncounted (record m { share_lock_sem = m.share_lock_sem + 1 }) share_posted
  keep_share : m.share_counter ≢ 0 → Move m uncounted m share_posted
  release_post_cr :
      Move m share_posted (record m { share_cr_lock_sem = m.share_cr_lock_sem + 1 }) outside
  exclusive_wait :
      0 < m.exclusive_lock_sem
      → Move m outside (record m { exclusive_lock_sem = m.exclusive_lock_sem - 1 }) waits_share
  exclusive_wait_share :
      0 < m.share_lock_sem
      → Move m waits_share (record m { share_lock_sem = m.share_lock_sem - 1 }) exclusive
  exclusive_post_share :
      Move m exclusive (record m { share_lock_sem = m.share_lock_sem + 1 }) giving
  exclusive_post :
      Move m giving (record m { exclusive_lock_sem = m.exclusive_lock_sem + 1 }) outside

pub record System : Type 0 where
  pub locks : Locks
  pub pc : ℕ → Pc

-- As `super_block_init` leaves the semaphores, every thread outside.
abbrev pub init : System
init = record {
  locks = record {
    exclusive_lock_sem = 1;
    share_lock_sem = 1;
    share_cr_lock_sem = 1;
    share_counter = 0;
  };
  pc = λ _. outside;
}

-- The states that `n` threads reach, one thread moving at a time.
pub data Reach (n : ℕ) : System → Type 0 where
  at_start : Reach n init
  turn :
      {s : System} {m : Locks} {p : Pc} (i : ℕ)
      → Reach n s
      → i < n
      → Move s.locks (s.pc i) m p
      → Reach n (record { locks = m; pc = update s.pc i p })
