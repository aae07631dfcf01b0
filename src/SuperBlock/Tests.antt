-- ===== src/SuperBlock/Tests.antt =====
-- A small super block, and the theorems on the super block at it.
use hcfs.Base.{ℕ, ◌≡◌, ◌≢◌, refl, true, false, [], ◌∷◌, none, some, arith}
use hcfs.Base.Int.{pos}
use hcfs.Base.Tables.{update}
use hcfs.SuperBlock.State.{
  SuperBlock, SuperBlockEntry, SuperBlockHead, SystemData, init_hcfs_stat, Status, no_ll, is_dirty,
  st_unpin, st_pinning, st_pin, failed,
}
use hcfs.SuperBlock.Io.{ok}
use hcfs.SuperBlock.Inodes.{super_block_mark_dirty, super_block_update_transit}
use hcfs.SuperBlock.Invariant.{IsQuiet, IsSound}
use hcfs.SuperBlock.MarkDirty.{super_block_mark_dirty-IsSound}
use hcfs.SuperBlock.MarkAgain.{super_block_mark_dirty-again}
use hcfs.SuperBlock.PinQueue.{pin_ll_enqueue}
use hcfs.SuperBlock.MarkDirty.{Holds-loaded}
use hcfs.SuperBlock.Pins.{super_block_finish_pinning, super_block_mark_unpin}
use hcfs.SuperBlock.Unpinned.{finish_pinning-IsSound}
use hcfs.SuperBlock.Pinned.{pin_ll_enqueue-IsSound}
use hcfs.SuperBlock.Transit.{super_block_update_transit-IsSound}

abbrev entry : Status → SuperBlockEntry
entry st = record {
  inode_stat = record init_hcfs_stat { ino = 9 };
  util_ll_next = 0;
  util_ll_prev = 0;
  pin_ll_next = 0;
  pin_ll_prev = 0;
  pin_status = st_unpin;
  status = st;
  in_transit = false;
  mod_after_in_transit = false;
  this_index = 0;
  generation = 1;
  dirty_meta_size = pos 0;
  lastsync_time = pos 0;
}

abbrev head : SuperBlockHead
head = record {
  num_inode_reclaimed = pos 0;
  first_reclaimed_inode = 0;
  last_reclaimed_inode = 0;
  first_dirty_inode = 3;
  last_dirty_inode = 3;
  first_to_delete_inode = 0;
  last_to_delete_inode = 0;
  first_pin_inode = 0;
  last_pin_inode = 0;
  num_pinning_inodes = pos 0;
  num_to_be_reclaimed = pos 0;
  num_to_be_deleted = pos 0;
  num_dirty = pos 1;
  num_block_cached = pos 0;
  num_total_inodes = pos 8;
  num_active_inodes = pos 8;
}

abbrev zero_data : SystemData
zero_data = record {
  system_size = pos 0;
  system_meta_size = pos 0;
  cache_size = pos 0;
  cache_blocks = pos 0;
  dirty_cache_size = pos 0;
  unpin_dirty_data_size = pos 0;
}

-- Eight inodes, the third one dirty.
abbrev small : SuperBlock
small = record {
  head = head;
  disk_head = head;
  entries = update (λ i. entry no_ll) 3 (entry is_dirty);
  num_entries = 8;
  this_entry = entry no_ll;
  outcomes = [];
  sync_point_is_set = false;
  sync_point_info = none;
  sync_point_file = none;
  sync_complete_events = 0;
  recovery = record { is_ongoing = false; start_inode = 0; end_inode = 0 };
  now_reclaim_fullscan = false;
  temp_unclaimed_is_open = false;
  temp_unclaimed = [];
  unclaimed_list = [];
  systemdata = zero_data;
  something_to_replace = 0;
  sync_wait = 0;
  dsync_wait = 0;
  pin_wait = 0;
  current_time = pos 100;
  meta_size = λ i. pos 4096;
}

small-IsQuiet : IsQuiet small
small-IsQuiet = record { io = refl; no_recovery = refl }

three_ne_zero : ◌≢◌ {A = ℕ} 3 0
three_ne_zero = omega arith

small-IsSound : IsSound small (3 ∷ []) [] []
small-IsSound = record {
  dirty_queue = record {
    chain = (three_ne_zero, refl, refl, tt);
    first_eq = refl;
    last_eq = refl;
    complete = λ i h. ground arith;
  };
  delete_queue = record {
    chain = tt;
    first_eq = refl;
    last_eq = refl;
    complete = λ i h. ground arith;
  };
  pin_queue = record {
    chain = tt;
    first_eq = refl;
    last_eq = refl;
    complete = λ i h. ground arith;
  };
  num_dirty = refl;
  num_deleted = refl;
  num_pinned = refl;
  dirty_in_file = λ i h. ground arith;
  deleted_in_file = λ i h. cc;
  pinned_in_file = λ i h. cc;
}

super_block_mark_dirty-IsSound_example :
    (t : SuperBlock) × (super_block_mark_dirty 5 small ≡ ok tt t)
    × IsSound t (3 ∷ 5 ∷ []) [] []
    × (t.disk_head ≡ t.head)
super_block_mark_dirty-IsSound_example =
    super_block_mark_dirty-IsSound small 5 (3 ∷ []) [] [] small-IsQuiet small-IsSound refl refl refl
      refl

super_block_update_transit-IsSound_example :
    (t : SuperBlock) × (super_block_update_transit 3 false false small ≡ ok tt t)
    × IsSound t [] [] []
    × ((t.entries 3).in_transit ≡ false)
super_block_update_transit-IsSound_example =
    super_block_update_transit-IsSound small 3 (3 ∷ []) [] [] small-IsQuiet small-IsSound refl refl
      refl refl

super_block_mark_dirty-again_example :
    (t : SuperBlock) × (super_block_mark_dirty 3 small ≡ ok tt t)
    × IsSound t (3 ∷ []) [] []
    × (t.head ≡ small.head)
super_block_mark_dirty-again_example =
    super_block_mark_dirty-again small 3 (3 ∷ []) [] [] small-IsQuiet small-IsSound refl refl refl
      refl

pin_ll_enqueue-IsSound_example :
    (t : SuperBlock) × (pin_ll_enqueue 5 small ≡ ok tt t)
    × IsSound t (3 ∷ []) [] (5 ∷ [])
    × (t.disk_head ≡ t.head)
pin_ll_enqueue-IsSound_example =
    pin_ll_enqueue-IsSound small 5 (3 ∷ []) [] [] small-IsQuiet
      (Holds-loaded small 5 (3 ∷ []) [] [] small-IsSound) refl refl refl

-- The inodes 4 and 6 wait to be pinned.
abbrev two_pins : SuperBlock
two_pins = record small {
  head = record head {
    num_dirty = pos 0;
    first_dirty_inode = 0;
    last_dirty_inode = 0;
    first_pin_inode = 4;
    last_pin_inode = 6;
    num_pinning_inodes = pos 2;
  };
  entries =
      update
        (update (λ i. entry no_ll) 4
          (record (entry no_ll) { pin_status = st_pinning; pin_ll_next = 6 }))
        6 (record (entry no_ll) { pin_status = st_pinning; pin_ll_prev = 4 });
}

four_ne_zero : ◌≢◌ {A = ℕ} 4 0
four_ne_zero = omega arith

six_ne_zero : ◌≢◌ {A = ℕ} 6 0
six_ne_zero = omega arith

two_pins-IsSound : IsSound two_pins [] [] (4 ∷ 6 ∷ [])
two_pins-IsSound = record {
  dirty_queue = record {
    chain = tt;
    first_eq = refl;
    last_eq = refl;
    complete = λ i h. ground arith;
  };
  delete_queue = record {
    chain = tt;
    first_eq = refl;
    last_eq = refl;
    complete = λ i h. ground arith;
  };
  pin_queue = record {
    chain = (four_ne_zero, refl, refl, (six_ne_zero, refl, refl, tt));
    first_eq = refl;
    last_eq = refl;
    complete = λ i h. ground arith;
  };
  num_dirty = refl;
  num_deleted = refl;
  num_pinned = refl;
  dirty_in_file = λ i h. cc;
  deleted_in_file = λ i h. cc;
  pinned_in_file = λ i h. ground arith;
}

finish_pinning-IsSound_example :
    (t u : SuperBlock) × (super_block_finish_pinning 4 two_pins ≡ ok tt t)
    × IsSound t [] [] (6 ∷ [])
    × ((t.entries 4).pin_status ≡ st_pin)
    × (super_block_mark_unpin 4 two_pins ≡ ok tt u)
    × IsSound u [] [] (6 ∷ [])
    × ((u.entries 4).pin_status ≡ st_unpin)
finish_pinning-IsSound_example =
    finish_pinning-IsSound two_pins 4 [] [] (4 ∷ 6 ∷ []) (record { io = refl; no_recovery = refl })
      two_pins-IsSound refl refl refl

abbrev failing : SuperBlock
failing = record small {
  outcomes = failed 5 ∷ [];
  sync_point_info = some (record {
    sync_retry_times = 0;
    ctl_sem = 1;
    points = record {
      upload_sync_point = 3;
      delete_sync_point = 0;
      upload_sync_complete = false;
      delete_sync_complete = true;
    };
  });
}
