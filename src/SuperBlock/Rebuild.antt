-- ===== src/SuperBlock/Rebuild.antt =====
-- `ll_rebuild_dirty`: mends the links of the dirty queue after a crash in between two writes.
use hcfs.Base.{ℕ, zero, suc, ◌+◌, false, not, ◌&&◌, ◌||◌, [], ◌==◌, if◌then◌else◌}
use hcfs.Base.Int.{pos, ◌+ℤ◌}
use hcfs.SuperBlock.State.{SuperBlockEntry, init_hcfs_stat, st_del, no_ll, is_dirty}
use hcfs.SuperBlock.Io.{
  M, pure, ◌>>=◌, ◌>>◌, get, modify, modify_head, hang, read_super_block_entry,
  write_super_block_entry, write_super_block_head,
}
use hcfs.SuperBlock.Stats.{sem_check_and_release}

-- `memset(&entry, 0, sizeof(SUPER_BLOCK_ENTRY))`
abbrev pub zero_entry : SuperBlockEntry
zero_entry = record {
  inode_stat = record init_hcfs_stat { magic = []; metaver = 0 };
  util_ll_next = 0;
  util_ll_prev = 0;
  pin_ll_next = 0;
  pin_ll_prev = 0;
  pin_status = st_del;
  status = no_ll;
  in_transit = false;
  mod_after_in_transit = false;
  this_index = 0;
  generation = 0;
  dirty_meta_size = pos 0;
  lastsync_time = pos 0;
}

unfoldable pub wake_sync : M (Unit {0})
wake_sync = modify (λ s. record s { sync_wait = sem_check_and_release s.sync_wait })

unfoldable pub read_or_zero : ℕ → M SuperBlockEntry
read_or_zero ino = if ino == 0 then pure zero_entry else read_super_block_entry ino

-- The queue is empty though `missing` should be in it.
unfoldable pub rebuild_single : ℕ → M (Unit {0})
rebuild_single missing = do
  modify_head λ h. record h { first_dirty_inode = missing; last_dirty_inode = missing }
  entry1 ← read_super_block_entry missing
  write_super_block_entry missing (record entry1 { util_ll_prev = 0; util_ll_next = 0 })
  modify_head λ h. record h { num_dirty = pos 1 }
  wake_sync
  write_super_block_head

-- The loop along `util_ll_next`; `entry1` is the entry before. It ends only if the links do.
unfoldable pub rebuild_forward : ℕ → SuperBlockEntry → M (Unit {0})
rebuild_forward zero entry1 = hang
rebuild_forward (suc fuel) entry1 =
    let rest = rebuild_forward fuel in
    if entry1.util_ll_next == 0 then pure tt else do
      entry2 ← read_super_block_entry entry1.util_ll_next
      if entry2.util_ll_prev == entry1.this_index then rest entry2 else do
        let mended = record entry2 { util_ll_prev = entry1.this_index }
        write_super_block_entry entry2.this_index mended
        rest mended

-- The last inode has a successor: an enqueue was interrupted, and is finished here.
unfoldable pub finish_enqueue : SuperBlockEntry → M (Unit {0})
finish_enqueue entry1 = do
  entry ← read_super_block_entry entry1.util_ll_next
  write_super_block_entry entry.this_index
      (record entry { status = is_dirty; util_ll_next = 0; util_ll_prev = entry1.this_index })
  modify_head
      λ h. record h { last_dirty_inode = entry.this_index; num_dirty = h.num_dirty +ℤ pos 1 }
  wake_sync
  write_super_block_head

unfoldable pub rebuild_backward : SuperBlockEntry → M (Unit {0})
rebuild_backward entry1 = if entry1.util_ll_prev == 0 then pure tt else do
  entry2 ← read_super_block_entry entry1.util_ll_prev
  if entry2.util_ll_next == entry1.this_index
      then pure tt
      else write_super_block_entry entry2.this_index
          (record entry2 { util_ll_next = entry1.this_index })

-- The first entry has no predecessor.
unfoldable pub clear_first : SuperBlockEntry → M SuperBlockEntry
clear_first entry1 = if entry1.util_ll_prev == 0 then pure entry1 else do
  let mended = record entry1 { util_ll_prev = 0 }
  write_super_block_entry entry1.this_index mended
  pure mended

unfoldable pub rebuild_links : ℕ → ℕ → SuperBlockEntry → M (Unit {0})
unfolding clear_first rebuild_forward read_or_zero finish_enqueue rebuild_backward
rebuild_links fuel last_dirty entry1 = do
  entry1 ← clear_first entry1
  rebuild_forward fuel entry1
  entry1 ← read_or_zero last_dirty
  if entry1.util_ll_next == 0 then rebuild_backward entry1 else finish_enqueue entry1

-- A loop of more rounds than the file has entries goes round for ever.
unfoldable pub ll_rebuild_dirty : ℕ → M (Unit {0})
unfolding read_or_zero rebuild_single rebuild_links
ll_rebuild_dirty missing = do
  s ← get
  let first_dirty = s.head.first_dirty_inode
  let last_dirty = s.head.last_dirty_inode
  entry1 ← read_or_zero first_dirty
  let is_missing = not (missing == 0) && not ((first_dirty == missing) || (last_dirty == missing))
  if (first_dirty == 0) && ((last_dirty == 0) && is_missing)
      then rebuild_single missing
      else rebuild_links (s.num_entries + 2) last_dirty entry1
