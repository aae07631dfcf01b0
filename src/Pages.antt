-- ===== src/Pages.antt =====
-- Files whose header leads to pages through pages of pointers: the meta file of a regular file
-- (src/HCFS/metaops.c) and the file of an upload's progress (src/HCFS/atomic_tocloud.c).
pub mod Tree
pub mod File
pub mod Levels
pub mod Paths
pub mod Failure
pub mod Ends
pub mod Growth
pub mod Kept
pub mod Created
mod Tests
