-- ===== src/HashList/Locks/Tests.antt =====
-- Two threads and the locks of the hash table.
use hcfs.Base.{ℕ, ◌<◌, ◌≡◌, ◌≢◌, refl, arith}
use hcfs.HashList.Locks.{
  Pc, inside, global, System, Reach, at_start, turn, wait_bucket, wait_table, wait_shared,
  confiscate, count_first, post_shared, post_table, global_wait_table, global_wait_can, init, Move,
  Locks,
}
use hcfs.HashList.Locks.Safety.{global_lock_exclusion}
use hcfs.HashList.Locks.Progress.{SomeMove, no_deadlock}

abbrev Reached : Type 0
Reached = (s : System) × Reach 2 s

abbrev next :
    (r : Reached) (i : ℕ) {m : Locks} {p : Pc} → i < 2 → Move r.0.locks (r.0.pc i) m p → Reached
next (s, r) i lt mv = (_, turn i r lt mv)

-- Thread 0 has list 1, thread 1 waits with list 2 for the table.
abbrev one_list : Reached
one_list =
    let r1 : Reached = next (init, at_start) 0 (omega arith) (wait_bucket {b = 1} (omega arith)) in
    let r2 : Reached = next r1 0 (omega arith) (wait_table (omega arith)) in
    let r3 : Reached = next r2 0 (omega arith) (wait_shared (omega arith)) in
    let r4 : Reached = next r3 0 (omega arith) (confiscate refl (omega arith)) in
    let r5 : Reached = next r4 0 (omega arith) count_first in
    let r6 : Reached = next r5 1 (omega arith) (wait_bucket {b = 2} (omega arith)) in
    let r7 : Reached = next r6 0 (omega arith) post_shared in next r7 0 (omega arith) post_table

abbrev whole_table : Reached
whole_table =
    let r1 : Reached = next (init, at_start) 0 (omega arith) (global_wait_table (omega arith)) in
    let r2 : Reached = next r1 1 (omega arith) (wait_bucket {b = 2} (omega arith)) in
    next r2 0 (omega arith) (global_wait_can (omega arith))

global_lock_exclusion_example :
    ((b : ℕ) → whole_table.0.pc 1 ≢ inside b) × (whole_table.0.pc 1 ≡ global → ◌≡◌ {A = ℕ} 0 1)
global_lock_exclusion_example =
    global_lock_exclusion 2 whole_table.0 0 1 (omega arith) whole_table.1 (omega arith)
      (omega arith) refl

no_deadlock_example : SomeMove 2 whole_table.0.locks whole_table.0.pc
no_deadlock_example =
    no_deadlock 2 whole_table.0 1 (omega arith) whole_table.1 (omega arith) (λ e. cc)
