-- ===== src/SuperBlock/State.antt =====
-- The data of the super block: `HCFS_STAT` of src/HCFS/meta.h, the records of
-- src/HCFS/super_block.h, the sync point of src/HCFS/syncpoint_control.h and the part of the
-- system statistics that these change.
use hcfs.Base.{ℕ, Bool, List, [], ◌∷◌, Option}
use hcfs.Base.Int.{ℤ, pos}

-- `_pad` bytes are left out. Fields of 64 bits with a sign are integers.
pub record HcfsStat : Type 0 where
  pub magic : List ℕ
  pub metaver : ℕ
  pub dev : ℕ
  pub ino : ℕ
  pub mode : ℕ
  pub nlink : ℕ
  pub uid : ℕ
  pub gid : ℕ
  pub rdev : ℕ
  pub size : ℤ
  pub blksize : ℤ
  pub blocks : ℤ
  pub atime : ℤ
  pub atime_nsec : ℕ
  pub mtime : ℤ
  pub mtime_nsec : ℕ
  pub ctime : ℤ
  pub ctime_nsec : ℕ

-- `init_hcfs_stat`: all zero but the version and the magic bytes "hcfs".
abbrev pub init_hcfs_stat : HcfsStat
init_hcfs_stat = record {
  magic = b'h' ∷ b'c' ∷ b'f' ∷ b's' ∷ [];
  metaver = 1;
  dev = 0;
  ino = 0;
  mode = 0;
  nlink = 0;
  uid = 0;
  gid = 0;
  rdev = 0;
  size = pos 0;
  blksize = pos 0;
  blocks = pos 0;
  atime = pos 0;
  atime_nsec = 0;
  mtime = pos 0;
  mtime_nsec = 0;
  ctime = pos 0;
  ctime_nsec = 0;
}

pub data PinStatus : Type 0 where
  st_del st_unpin st_pinning st_pin : PinStatus

pub data Status : Type 0 where
  no_ll is_dirty to_be_deleted to_be_reclaimed reclaimed : Status

pub record SuperBlockEntry : Type 0 where
  pub inode_stat : HcfsStat
  pub util_ll_next : ℕ
  pub util_ll_prev : ℕ
  pub pin_ll_next : ℕ
  pub pin_ll_prev : ℕ
  pub pin_status : PinStatus
  pub status : Status
  pub in_transit : Bool
  pub mod_after_in_transit : Bool
  pub this_index : ℕ
  pub generation : ℕ
  pub dirty_meta_size : ℤ
  pub lastsync_time : ℤ

pub record SuperBlockHead : Type 0 where
  pub num_inode_reclaimed : ℤ
  pub first_reclaimed_inode : ℕ
  pub last_reclaimed_inode : ℕ
  pub first_dirty_inode : ℕ
  pub last_dirty_inode : ℕ
  pub first_to_delete_inode : ℕ
  pub last_to_delete_inode : ℕ
  pub first_pin_inode : ℕ
  pub last_pin_inode : ℕ
  pub num_pinning_inodes : ℤ
  pub num_to_be_reclaimed : ℤ
  pub num_to_be_deleted : ℤ
  pub num_dirty : ℤ
  pub num_block_cached : ℤ
  pub num_total_inodes : ℤ
  pub num_active_inodes : ℤ

-- `SB_RECOVERY_META`, without its time stamp.
pub record SbRecoveryMeta : Type 0 where
  pub is_ongoing : Bool
  pub start_inode : ℕ
  pub end_inode : ℕ

pub record SyncPointData : Type 0 where
  pub upload_sync_point : ℕ
  pub delete_sync_point : ℕ
  pub upload_sync_complete : Bool
  pub delete_sync_complete : Bool

-- `SYNC_POINT_INFO`; its field `data` is `points` here.
pub record SyncPointInfo : Type 0 where
  pub sync_retry_times : ℕ
  pub ctl_sem : ℕ
  pub points : SyncPointData

-- The statistics of `hcfs_system->systemdata` that `change_system_meta` updates.
pub record SystemData : Type 0 where
  pub system_size : ℤ
  pub system_meta_size : ℤ
  pub cache_size : ℤ
  pub cache_blocks : ℤ
  pub dirty_cache_size : ℤ
  pub unpin_dirty_data_size : ℤ

-- What one read or write of a file comes to: all bytes, an error, or fewer bytes than asked for.
pub data Outcome : Type 0 where
  done : Outcome
  failed : ℕ → Outcome
  short : Outcome

-- `SUPER_BLOCK_CONTROL` with the super block file. `entries` and `num_entries` are the file behind
-- its head, `disk_head` its head; `this_entry` is the entry in memory that an operation works on
-- (`tempentry`, `this_entry` or `*inode_ptr`); `outcomes` are those of the next reads and writes,
-- all `done` when the list is used up; the last fields are the semaphores that wake other threads,
-- the time, and the size of each meta file (0 where `stat` fails).
pub record SuperBlock : Type 0 where
  pub head : SuperBlockHead
  pub disk_head : SuperBlockHead
  pub entries : ℕ → SuperBlockEntry
  pub num_entries : ℕ
  pub this_entry : SuperBlockEntry
  pub outcomes : List Outcome
  pub sync_point_is_set : Bool
  pub sync_point_info : Option SyncPointInfo
  pub sync_point_file : Option SyncPointData
  pub sync_complete_events : ℕ
  pub recovery : SbRecoveryMeta
  pub now_reclaim_fullscan : Bool
  pub temp_unclaimed_is_open : Bool
  pub temp_unclaimed : List ℕ
  pub unclaimed_list : List ℕ
  pub systemdata : SystemData
  pub something_to_replace : ℕ
  pub sync_wait : ℕ
  pub dsync_wait : ℕ
  pub pin_wait : ℕ
  pub current_time : ℤ
  pub meta_size : ℕ → ℤ
