-- ===== src/SuperBlock.antt =====
-- The super block (src/HCFS/super_block.c, super_block.h): the on-disk table of inodes with the
-- queues of dirty inodes, of inodes to be deleted and of inodes to be pinned.
pub mod State
pub mod Io
pub mod SyncPoint
pub mod Stats
pub mod Rebuild
pub mod StatusQueue
pub mod PinQueue
pub mod Inodes
pub mod Reclaim
pub mod Pins
pub mod Invariant
pub mod Steps
pub mod Tail
pub mod Links
pub mod Enqueue
pub mod JoinDirty
pub mod Unlink
pub mod LeaveDirty
pub mod MarkDirty
pub mod MarkAgain
pub mod Transit
pub mod PinEnqueue
pub mod PinDequeue
pub mod Pinned
pub mod Unpinned
pub mod Locks
mod Tests
