-- ===== src/Progress.antt =====
-- The file that keeps how far the upload of an inode is (src/HCFS/atomic_tocloud.c): a status for each
-- block of the uploaded and of the backend's version, in pages that the header leads to. This is the
-- version without deduplication. Numbers of blocks are not negative, and no position overflows.
pub mod State
pub mod Pages
pub mod Info
pub mod Creation
pub mod Longpow
pub mod Create
pub mod Root
pub mod Query
pub mod Get
pub mod Update
pub mod Undone
pub mod Set
pub mod Table
mod Tests
