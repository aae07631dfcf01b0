-- ===== src/SuperBlock/Locks/Tests.antt =====
-- Two threads and the locks of the super block.
use hcfs.Base.{ℕ, ◌<◌, ◌≡◌, ◌≢◌, refl, arith}
use hcfs.SuperBlock.Locks.{
  Pc, sharing, exclusive, System, Reach, at_start, turn, init, Move, Locks, wait_exclusive, wait_cr,
  wait_share, count_first, post_cr, post_exclusive, exclusive_wait, exclusive_wait_share,
}
use hcfs.SuperBlock.Locks.Safety.{exclusive_lock_exclusion}
use hcfs.SuperBlock.Locks.Progress.{SomeMove, locks_go_on}

abbrev Reached : Type 0
Reached = (s : System) × Reach 2 s

abbrev next :
    (r : Reached) (i : ℕ) {m : Locks} {p : Pc} → i < 2 → Move r.0.locks (r.0.pc i) m p → Reached
next (s, r) i lt mv = (_, turn i r lt mv)

-- Thread 0 has the shared lock, thread 1 waits for the exclusive one.
abbrev shared_by_0 : Reached
shared_by_0 =
    let r1 : Reached = next (init, at_start) 0 (omega arith) (wait_exclusive (omega arith)) in
    let r2 : Reached = next r1 0 (omega arith) (wait_cr (omega arith)) in
    let r3 : Reached = next r2 0 (omega arith) (wait_share refl (omega arith)) in
    let r4 : Reached = next r3 0 (omega arith) count_first in
    let r5 : Reached = next r4 0 (omega arith) post_cr in
    let r6 : Reached = next r5 0 (omega arith) post_exclusive in
    next r6 1 (omega arith) (exclusive_wait (omega arith))

abbrev exclusive_to_1 : Reached
exclusive_to_1 =
    let r1 : Reached = next (init, at_start) 1 (omega arith) (exclusive_wait (omega arith)) in
    next r1 1 (omega arith) (exclusive_wait_share (omega arith))

exclusive_lock_exclusion_example :
    (exclusive_to_1.0.pc 0 ≢ sharing) × (exclusive_to_1.0.pc 0 ≡ exclusive → ◌≡◌ {A = ℕ} 1 0)
exclusive_lock_exclusion_example =
    exclusive_lock_exclusion 2 exclusive_to_1.0 1 0 exclusive_to_1.1 (omega arith) (omega arith)
      refl

locks_go_on_example : SomeMove 2 shared_by_0.0.locks shared_by_0.0.pc
locks_go_on_example = locks_go_on 2 shared_by_0.0 1 shared_by_0.1 (omega arith) (λ e. cc)
