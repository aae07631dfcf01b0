-- ===== src/SuperBlock/StatusQueue.antt =====
-- `ll_enqueue` and `ll_dequeue`: the queues of dirty inodes and of inodes to be deleted. Both work
-- on `*this_entry`, which the caller writes back.
pub mod Dequeue
pub mod Enqueue
