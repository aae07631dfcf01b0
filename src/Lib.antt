-- ===== src/Lib.antt =====
-- HCFS is a file system that keeps its data in a cloud and caches it locally. This library models
-- parts of its daemon (src/HCFS) and proves what makes them correct.
--
-- The super block (super_block.c) is the table of all inodes. Each entry may be in one of the
-- queues of dirty inodes and of inodes to be deleted, and in the queue of inodes to be pinned; the
-- queues are doubly linked lists through the entries, with their ends and lengths in the head. The
-- operations that mark, upload, delete and pin inodes move entries between them, repair the dirty
-- queue where its links do not fit, move the sync point (syncpoint_control.c) and adjust the system
-- statistics (utils.c). The file system side counts the kernel's references to an inode
-- (lookup_count.c), keeps the handles of open files and directories (filetables.c), searches
-- directories, each of which is a B-tree in its meta file (dir_entry_btree.c), caches the user
-- ids of Android packages (pkg_cache.c), and uses a hash table with locks of its own
-- (hash_list_struct.c). For each upload it keeps a file with the status of every block
-- (atomic_tocloud.c). Keys and signatures are sent in base 64 (b64encode.c).
--
-- - Base: numbers, integers, lists and tables that all parts share.
-- - Queue: doubly linked queues over any family of links: what it means that one holds a list, and
--   that appending and erasing keep it so.
-- - SuperBlock: State has the records of super_block.h, meta.h and syncpoint_control.h; Io the
--   monad, with read_super_block_entry, write_super_block_entry and write_super_block_head; Stats
--   change_system_meta and IS_SBENTRY_BEING_RECOVER_LATER; SyncPoint the functions of
--   syncpoint_control.c; Rebuild ll_rebuild_dirty; StatusQueue ll_enqueue and ll_dequeue; PinQueue
--   pin_ll_enqueue and pin_ll_dequeue; Inodes, Reclaim and Pins the operations named super_block_*.
--   The other modules prove: Invariant says when the queues are sound; Steps, Tail, Links, Enqueue,
--   JoinDirty, Unlink and LeaveDirty have the lemmas on the two changes of the dirty queue, and
--   PinEnqueue and PinDequeue those on the changes of the pin queue; MarkDirty, MarkAgain, Transit,
--   Pinned and Unpinned have the theorems on operations. Locks has the shared and
--   exclusive lock as steps of threads, with Inv, Moves, Safety and Progress about them.
-- - LookupCount: lookup_count.c, with its loops over the whole table in Init and Destroy; Table and
--   Inv have the lemmas, Ops the theorems.
-- - PkgCache: pkg_cache.c, and djb_hash of utils.h in Hash; Entries and Laws have the lemmas, Ops,
--   Insert and Destroy the theorems.
-- - HashList: hash_list_struct.c; Find has the lemmas on one list, Ops the theorems. Locks has the
--   four lock calls as steps of threads: Inv what the semaphores count, Moves that each step keeps
--   it, Safety and Progress the theorems.
-- - FileTables: filetables.c; Search is about the search for a free index, Handles and Calls about
--   opening and closing, Snapshot has handle_dirmeta_snapshot.
-- - DirTree: the search of dir_entry_btree.c, in a page in Search and in the tree in Tree.
-- - B64: b64encode.c; Decode and RoundTrip are about decoding what was encoded, Bounds about the
--   decoder on any input.
-- - Pages: files whose header leads to pages of data through pages of pointers. File has the state,
--   Levels longpow and check_page_level of metaops.c and the indices on the way to a page, which
--   Paths is about; Tree says that each page has one place, Growth, Kept and Created what adding
--   pages keeps, Failure which outcomes a run used up and that the last of them was an error, Ends
--   how a statement about a run follows call by call.
-- - Progress: the status of the blocks in atomic_tocloud.c. State has its records, Pages
--   query_status_page and create_status_page, Info get_progress_info, set_progress_info and
--   change_action, Creation create_progress_file, Longpow the longpow of this program, where the
--   others use that of metaops.c. Create and Root follow the creation of pages call by call, Query
--   the search and Get the reading; Update, Undone, Set and Table see the file as a table from
--   blocks to their status.
-- - MetaPages: seek_page, seek_page2 and _load_indirect of metaops.c; Seek is about what they find,
--   Entries about the pointers that this depends on.
-- - DirStat: dir_statistics.c; Walk is about the walk to the root.
--
-- State is passed explicitly. A read or write takes its outcome from a list in the state (done, an
-- error number, or short), so every error path is a value; the list being used up means success.
-- A call that blocks forever, follows a null pointer or loops forever has the result no_return, and
-- a lock that is taken the result none. Operations that hold a lock from start to end are single
-- steps. Numbers that C keeps in 64 bits are unbounded here; the lookup counts wrap around at 32
-- bits, as does the hash, and the longpow of atomic_tocloud.c at 64. The loop of the dirty queue's repair runs on fuel, two more than
-- the number of entries, and does not return when it is used up; the search for a free file handle
-- has as much as there are indices, which is enough where one is free; that longpow has 32 rounds,
-- enough for the powers of an int32_t; the
-- binary search has as much as there are entries, the walk to the root as many rounds as there are
-- directories on the way, and the search in a directory as its tree is high,
-- which are enough. All other loops are structural recursion.
--
-- Not modelled: log messages; the branches of the super block for a restored system; the creation
-- of inodes and the scan that reclaims numbers; threads, but for those two kinds of locks; everything
-- that talks to the cloud or to FUSE; the insertion into and deletion from
-- directories; the creation of pages in meta files, the rest of these files and the memory cache;
-- the parents of an inode (fetch_all_parents), what init_progress_info takes over from the backend,
-- and the status with deduplication. In the pages of files, reads and
-- writes succeed or fail as a whole, and what was never written reads as zeros.
pub mod Base
pub mod Queue
pub mod SuperBlock
pub mod LookupCount
pub mod PkgCache
pub mod HashList
pub mod FileTables
pub mod DirTree
pub mod B64
pub mod Pages
pub mod Progress
pub mod MetaPages
pub mod DirStat
