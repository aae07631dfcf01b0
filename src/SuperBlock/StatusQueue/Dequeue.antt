-- ===== src/SuperBlock/StatusQueue/Dequeue.antt =====
-- `ll_dequeue`: an inode leaves the queue that it is on.
use hcfs.Base.{ℕ, Bool, true, false, not, ◌||◌, ◌==◌, if◌then◌else◌, Option, none, some}
use hcfs.Base.Int.{ℤ, pos, ◌-ℤ◌}
use hcfs.SuperBlock.State.{
  SuperBlockEntry, Status, no_ll, is_dirty, to_be_deleted, to_be_reclaimed, reclaimed,
}
use hcfs.SuperBlock.Io.{
  M, pure, ◌>>=◌, ◌>>◌, get, modify_head, modify_entry, read_super_block_entry,
  write_super_block_entry, load_entry,
}
use hcfs.SuperBlock.Stats.{change_system_meta, being_recovered_later}
use hcfs.SuperBlock.SyncPoint.{move_sync_point}
use hcfs.SuperBlock.Rebuild.{ll_rebuild_dirty}

abbrev pub status_eq : Status → Status → Bool
status_eq no_ll no_ll = true
status_eq is_dirty is_dirty = true
status_eq to_be_deleted to_be_deleted = true
status_eq to_be_reclaimed to_be_reclaimed = true
status_eq reclaimed reclaimed = true
status_eq _ _ = false

unfoldable pub change_dirty_cache : ℤ → M (Unit {0})
change_dirty_cache delta = change_system_meta (pos 0) (pos 0) (pos 0) (pos 0) delta (pos 0)

-- The tests at the head of `ll_dequeue`: do the neighbours of `ino` in the dirty queue know it? A
-- neighbour that was read is kept.
unfoldable pub check_next : ℕ → M (Bool × Option SuperBlockEntry)
check_next ino = do
  s ← get
  let i = s.this_entry.util_ll_next
  if i == 0
      then pure (not (s.head.last_dirty_inode == ino), none)
      else do next ← read_super_block_entry i; pure (not (next.util_ll_prev == ino), some next)

unfoldable pub check_prev : ℕ → M (Bool × Option SuperBlockEntry)
check_prev ino = do
  s ← get
  let i = s.this_entry.util_ll_prev
  if i == 0
      then pure (not (s.head.first_dirty_inode == ino), none)
      else do prev ← read_super_block_entry i; pure (not (prev.util_ll_next == ino), some prev)

-- The neighbours `next` and `prev`, where they need not be read again.
abbrev pub Known : Type 0
Known = Option SuperBlockEntry × Option SuperBlockEntry

unfoldable pub mend_dirty : ℕ → M Known
unfolding check_next check_prev
mend_dirty ino = do
  (broken_next, next) ← check_next ino
  (broken_prev, prev) ← check_prev ino
  if broken_next || broken_prev
      then (do ll_rebuild_dirty ino; load_entry ino; pure (none, none))
      else pure (next, prev)

unfoldable pub known_or_read : Option SuperBlockEntry → ℕ → M SuperBlockEntry
known_or_read (some e) i = pure e
known_or_read none i = read_super_block_entry i

unfoldable pub set_last : Status → ℕ → M (Unit {0})
set_last is_dirty i = modify_head (λ h. record h { last_dirty_inode = i })
set_last to_be_deleted i = modify_head (λ h. record h { last_to_delete_inode = i })
set_last _ i = pure tt

unfoldable pub set_first : Status → ℕ → M (Unit {0})
set_first is_dirty i = modify_head (λ h. record h { first_dirty_inode = i })
set_first to_be_deleted i = modify_head (λ h. record h { first_to_delete_inode = i })
set_first _ i = pure tt

unfoldable pub unlink_next : Status → Option SuperBlockEntry → M (Unit {0})
unfolding set_last known_or_read
unlink_next which known = do
  s ← get
  let e = s.this_entry
  if e.util_ll_next == 0 then set_last which e.util_ll_prev else do
    next ← known_or_read known e.util_ll_next
    write_super_block_entry e.util_ll_next (record next { util_ll_prev = e.util_ll_prev })

unfoldable pub unlink_prev : Status → Option SuperBlockEntry → M (Unit {0})
unfolding set_first known_or_read
unlink_prev which known = do
  s ← get
  let e = s.this_entry
  if e.util_ll_prev == 0 then set_first which e.util_ll_next else do
    prev ← known_or_read known e.util_ll_prev
    write_super_block_entry e.util_ll_prev (record prev { util_ll_next = e.util_ll_next })

unfoldable pub count_out : Status → M (Unit {0})
unfolding change_dirty_cache
count_out is_dirty = do
  modify_head λ h. record h { num_dirty = h.num_dirty -ℤ pos 1 }
  s ← get
  change_dirty_cache (pos 0 -ℤ s.this_entry.dirty_meta_size)
  modify_entry λ e. record e { dirty_meta_size = pos 0 }
count_out to_be_deleted =
    modify_head (λ h. record h { num_to_be_deleted = h.num_to_be_deleted -ℤ pos 1 })
count_out _ = pure tt

unfoldable pub leave_list : M (Unit {0})
leave_list = modify_entry (λ e. record e { status = no_ll; util_ll_next = 0; util_ll_prev = 0 })

unfoldable pub unlink : Status → ℕ → Known → M (Unit {0})
unfolding unlink_next unlink_prev count_out leave_list
unlink which ino (next, prev) = do
  s ← get
  if s.sync_point_is_set then move_sync_point which ino s.this_entry.util_ll_prev else pure tt
  unlink_next which next
  unlink_prev which prev
  count_out which
  leave_list

-- An inode that the recovery will come to only changes its status.
unfoldable pub dequeue_dirty : ℕ → M (Unit {0})
unfolding mend_dirty unlink leave_list
dequeue_dirty ino = do
  s ← get
  if being_recovered_later s ino
      then (do modify_entry (λ e. record e { dirty_meta_size = pos 0 }); leave_list)
      else (do known ← mend_dirty ino; unlink is_dirty ino known)

unfoldable pub dequeue_from : Status → ℕ → M (Unit {0})
unfolding dequeue_dirty unlink
dequeue_from is_dirty ino = dequeue_dirty ino
dequeue_from to_be_deleted ino = unlink to_be_deleted ino (none, none)
dequeue_from _ ino = pure tt

unfoldable pub ll_dequeue : ℕ → M (Unit {0})
unfolding dequeue_from
ll_dequeue ino = do s ← get; dequeue_from s.this_entry.status ino
