-- ===== src/HashList/Locks.antt =====
-- The locks of the hash table (src/HCFS/hash_list_struct.c): `n` threads that lock and unlock lists
-- and the whole table, a semaphore or a shared access at a time, interleaved in any order.
pub mod Inv
pub mod Moves
pub mod Safety
pub mod Progress
mod Tests
use hcfs.Base.{ℕ, ◌+◌, ◌-◌, ◌%◌, ◌^◌, ◌<◌, ◌≡◌, ◌≢◌}
use hcfs.Base.Tables.{update}

-- The semaphores, by their values, and `num_lock_bucket`.
pub record Locks : Type 0 where
  pub table_sem : ℕ
  pub can_lock_table_sem : ℕ
  pub shared_var_sem : ℕ
  pub num_lock_bucket : ℕ
  pub bucket_sem : ℕ → ℕ

abbrev pub u32 : ℕ → ℕ
u32 n = n % 2 ^ 32

-- Where a thread stands: in `_bucket_lock` up to `inside`, in `_bucket_unlock` up to `posted`, in the
-- global lock and unlock from `waits_can`.
pub data Pc : Type 0 where
  outside : Pc
  got_bucket got_table got_shared got_can counted shared_posted inside : (bucket : ℕ) → Pc
  unlocking uncounted released posted : (bucket : ℕ) → Pc
  waits_can global giving : Pc

-- One step of one thread. A wait for a semaphore is a step only where its value is not 0.
pub data Move (m : Locks) : Pc → Locks → Pc → Type 0 where
  wait_bucket :
      {b : ℕ}
      → 0 < m.bucket_sem b
      → Move m outside
          (record m { bucket_sem = update m.bucket_sem b (m.bucket_sem b - 1) })
          (got_bucket b)
  wait_table :
      {b : ℕ}
      → 0 < m.table_sem
      → Move m (got_bucket b) (record m { table_sem = m.table_sem - 1 }) (got_table b)
  wait_shared :
      {b : ℕ}
      → 0 < m.shared_var_sem
      → Move m (got_table b) (record m { shared_var_sem = m.shared_var_sem - 1 }) (got_shared b)
  confiscate :
      {b : ℕ}
      → m.num_lock_bucket ≡ 0
      → 0 < m.can_lock_table_sem
      → Move m
          (got_shared b)
          (record m { can_lock_table_sem = m.can_lock_table_sem - 1 })
          (got_can b)
  count_first :
      {b : ℕ}
      → Move m (got_can b) (record m { num_lock_bucket = u32 (m.num_lock_bucket + 1) }) (counted b)
  count_more :
      {b : ℕ}
      → m.num_lock_bucket ≢ 0
      → Move m
          (got_shared b)
          (record m { num_lock_bucket = u32 (m.num_lock_bucket + 1) })
          (counted b)
  post_shared :
      {b : ℕ}
      → Move m (counted b) (record m { shared_var_sem = m.shared_var_sem + 1 }) (shared_posted b)
  post_table :
      {b : ℕ} → Move m (shared_posted b) (record m { table_sem = m.table_sem + 1 }) (inside b)
  unlock_wait_shared :
      {b : ℕ}
      → 0 < m.shared_var_sem
      → Move m (inside b) (record m { shared_var_sem = m.shared_var_sem - 1 }) (unlocking b)
  uncount :
      {b : ℕ}
      → Move m
          (unlocking b)
          (record m { num_lock_bucket = u32 (m.num_lock_bucket + (2 ^ 32 - 1)) })
          (uncounted b)
  give_back :
      {b : ℕ}
      → m.num_lock_bucket ≡ 0
      → Move m
          (uncounted b)
          (record m { can_lock_table_sem = m.can_lock_table_sem + 1 })
          (released b)
  keep_confiscated : {b : ℕ} → m.num_lock_bucket ≢ 0 → Move m (uncounted b) m (released b)
  unlock_post_shared :
      {b : ℕ} → Move m (released b) (record m { shared_var_sem = m.shared_var_sem + 1 }) (posted b)
  post_bucket :
      {b : ℕ}
      → Move m
          (posted b)
          (record m { bucket_sem = update m.bucket_sem b (m.bucket_sem b + 1) })
          outside
  global_wait_table :
      0 < m.table_sem → Move m outside (record m { table_sem = m.table_sem - 1 }) waits_can
  global_wait_can :
      0 < m.can_lock_table_sem
      → Move m waits_can (record m { can_lock_table_sem = m.can_lock_table_sem - 1 }) global
  global_post_can :
      Move m global (record m { can_lock_table_sem = m.can_lock_table_sem + 1 }) giving
  global_post_table : Move m giving (record m { table_sem = m.table_sem + 1 }) outside

pub record System : Type 0 where
  pub locks : Locks
  pub pc : ℕ → Pc

-- As `create_hash_list` leaves the semaphores, every thread outside.
abbrev pub init : System
init = record {
  locks = record {
    table_sem = 1;
    can_lock_table_sem = 1;
    shared_var_sem = 1;
    num_lock_bucket = 0;
    bucket_sem = λ _. 1;
  };
  pc = λ _. outside;
}

-- The states that `n` threads reach, one thread moving at a time.
pub data Reach (n : ℕ) : System → Type 0 where
  at_start : Reach n init
  turn :
      {s : System} {m : Locks} {p : Pc} (i : ℕ)
      → Reach n s
      → i < n
      → Move s.locks (s.pc i) m p
      → Reach n (record { locks = m; pc = update s.pc i p })
