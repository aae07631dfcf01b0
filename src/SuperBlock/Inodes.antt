-- ===== src/SuperBlock/Inodes.antt =====
-- The operations on one inode: `super_block_write`, `super_block_update_stat`,
-- `super_block_mark_dirty`, `super_block_update_transit`, `super_block_to_delete`,
-- `super_block_enqueue_delete` of src/HCFS/super_block.c. Each holds the exclusive lock from its
-- first step to its last, so it runs as one step.
use hcfs.Base.{ℕ, ◌==◌, Bool, true, false, not, ◌&&◌, ◌||◌, if◌then◌else◌, einval}
use hcfs.Base.Int.{pos, ◌-ℤ◌, ltb_ℤ, is_zero_ℤ}
use hcfs.SuperBlock.State.{
  SuperBlock, HcfsStat, init_hcfs_stat, Status, no_ll, is_dirty, to_be_deleted, st_del, st_pinning,
}
use hcfs.SuperBlock.Io.{
  M, pure, throw, ◌>>=◌, ◌>>◌, get, modify, modify_head, modify_entry, ignore_error,
  write_super_block_head, load_entry, store_entry,
}
use hcfs.SuperBlock.Stats.{change_system_meta_ignore_dirty}
use hcfs.SuperBlock.StatusQueue.Dequeue.{status_eq, ll_dequeue}
use hcfs.SuperBlock.StatusQueue.Enqueue.{ll_enqueue}
use hcfs.SuperBlock.PinQueue.{pin_status_eq, pin_ll_dequeue}

-- From any list to the end of the dirty queue.
unfoldable pub requeue_dirty : ℕ → M (Unit {0})
requeue_dirty ino = do ll_dequeue ino; ll_enqueue ino is_dirty; write_super_block_head

unfoldable pub note_modification : M (Unit {0})
note_modification =
    modify_entry (λ e. record e { mod_after_in_transit = e.in_transit || e.mod_after_in_transit })

-- Outside of restoring; `this_entry` is `*inode_ptr`.
unfoldable pub super_block_write : ℕ → M (Unit {0})
unfolding requeue_dirty note_modification
super_block_write ino = do
  s ← get
  (if status_eq s.this_entry.status is_dirty then pure tt else requeue_dirty ino)
  note_modification
  store_entry ino

-- A removed inode has the number 0 in its stat.
unfoldable pub is_removed : SuperBlock → Bool
is_removed s = s.this_entry.inode_stat.ino == 0

unfoldable pub super_block_update_stat : ℕ → HcfsStat → Bool → M (Unit {0})
unfolding is_removed requeue_dirty note_modification
super_block_update_stat ino newstat no_sync = do
  load_entry ino
  s ← get
  if is_removed s then pure tt else do
    (if no_sync then pure tt else do
      (if status_eq s.this_entry.status is_dirty then pure tt else requeue_dirty ino)
      note_modification)
    modify_entry λ e. record e { inode_stat = newstat }
    store_entry ino

-- The branches on the status; the result is `need_write`.
unfoldable pub first_mark : ℕ → M Bool
first_mark ino = do ll_enqueue ino is_dirty; write_super_block_head; pure true

unfoldable pub mark_again : ℕ → M Bool
mark_again ino = do
  s ← get
  let size = s.meta_size ino
  let delta = size -ℤ s.this_entry.dirty_meta_size
  if not (ltb_ℤ (pos 0) size) || is_zero_ℤ delta then pure false else do
    modify_entry λ e. record e { dirty_meta_size = size }
    change_system_meta_ignore_dirty ino (pos 0) (pos 0) (pos 0) (pos 0) delta (pos 0)
    pure true

unfoldable pub mark_status : Status → ℕ → M Bool
unfolding first_mark mark_again
mark_status no_ll ino = first_mark ino
mark_status is_dirty ino = mark_again ino
mark_status _ ino = pure false

unfoldable pub finish_mark : ℕ → Bool → M (Unit {0})
finish_mark ino need_write = do
  s ← get
  (if s.this_entry.in_transit
      then modify_entry (λ e. record e { mod_after_in_transit = true })
      else pure tt)
  if need_write || s.this_entry.in_transit then store_entry ino else pure tt

unfoldable pub super_block_mark_dirty : ℕ → M (Unit {0})
unfolding is_removed mark_status finish_mark
super_block_mark_dirty ino = do
  load_entry ino
  s ← get
  if is_removed s
      then pure tt
      else do need_write ← mark_status s.this_entry.status ino; finish_mark ino need_write

-- The end of a complete upload of a dirty inode.
unfoldable pub end_transit : ℕ → M (Unit {0})
unfolding requeue_dirty
end_transit ino = do
  modify λ s. record s { this_entry = record s.this_entry { lastsync_time = s.current_time } }
  s ← get
  if s.this_entry.mod_after_in_transit
      then (if s.sync_point_is_set then requeue_dirty ino else pure tt)
      else (do ll_dequeue ino; write_super_block_head)

unfoldable pub super_block_update_transit :
    ℕ → (is_start_transit transit_incomplete : Bool) → M (Unit {0})
unfolding end_transit
super_block_update_transit ino is_start_transit transit_incomplete = do
  load_entry ino
  s ← get
  (if not is_start_transit && (status_eq s.this_entry.status is_dirty && not transit_incomplete)
      then end_transit ino
      else pure tt)
  modify_entry λ e. record e { in_transit = is_start_transit; mod_after_in_transit = false }
  store_entry ino

unfoldable pub drop_pin : ℕ → M (Unit {0})
drop_pin ino = do
  s ← get
  if pin_status_eq s.this_entry.pin_status st_pinning
      then ignore_error (pin_ll_dequeue ino)
      else pure tt

unfoldable pub leave_for_delete : ℕ → Bool → M (Unit {0})
leave_for_delete ino enqueue_now = do
  ll_dequeue ino
  (if enqueue_now then ll_enqueue ino to_be_deleted else pure tt)
  modify_entry λ e. record e { status = if enqueue_now then to_be_deleted else no_ll }

unfoldable pub super_block_to_delete : ℕ → Bool → M (Unit {0})
unfolding drop_pin leave_for_delete
super_block_to_delete ino enqueue_now = do
  load_entry ino
  drop_pin ino
  s ← get
  (if status_eq s.this_entry.status to_be_deleted
      then pure tt
      else leave_for_delete ino enqueue_now)
  modify_head λ h. record h { num_active_inodes = h.num_active_inodes -ℤ pos 1 }
  write_super_block_head
  modify_entry λ e. record e {
    in_transit = false;
    inode_stat = record init_hcfs_stat { mode = e.inode_stat.mode };
    pin_status = st_del;
  }
  store_entry ino

unfoldable pub super_block_enqueue_delete : ℕ → M (Unit {0})
super_block_enqueue_delete ino = do
  load_entry ino
  s ← get
  if not (status_eq s.this_entry.status no_ll)
      then throw einval
      else do ll_enqueue ino to_be_deleted; store_entry ino; write_super_block_head
