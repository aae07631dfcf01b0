-- ===== src/SuperBlock/StatusQueue/Enqueue.antt =====
-- `ll_enqueue`: an inode joins a queue, from none or from another one.
use hcfs.Base.{ℕ, Bool, true, false, not, ◌||◌, ◌==◌, if◌then◌else◌}
use hcfs.Base.Int.{pos, ◌+ℤ◌, ◌-ℤ◌, is_zero_ℤ}
use hcfs.SuperBlock.State.{Status, no_ll, is_dirty, to_be_deleted}
use hcfs.SuperBlock.Io.{
  M, pure, ◌>>=◌, ◌>>◌, get, modify, modify_head, modify_entry, read_super_block_entry,
  write_super_block_entry, load_entry,
}
use hcfs.SuperBlock.Stats.{sem_check_and_release, being_recovered_later}
use hcfs.SuperBlock.Rebuild.{wake_sync, ll_rebuild_dirty}
use hcfs.SuperBlock.StatusQueue.Dequeue.{status_eq, change_dirty_cache, ll_dequeue}

-- From dirty to dirty: only the size of the meta file is taken anew.
unfoldable pub refresh_dirty : ℕ → M (Unit {0})
unfolding change_dirty_cache
refresh_dirty ino = do
  s ← get
  let size = s.meta_size ino
  if being_recovered_later s ino || is_zero_ℤ size then pure tt else do
    modify_entry λ e. record e { dirty_meta_size = size }
    change_dirty_cache (size -ℤ s.this_entry.dirty_meta_size)

unfoldable pub already_there : Status → ℕ → M (Unit {0})
unfolding refresh_dirty
already_there is_dirty ino = refresh_dirty ino
already_there _ ino = pure tt

-- The test of the last two entries of the dirty queue.
unfoldable pub tail_is_broken : M Bool
tail_is_broken = do
  s ← get
  let last = s.head.last_dirty_inode
  entry ← read_super_block_entry last
  if not (entry.util_ll_next == 0)
      then pure true
      else if entry.util_ll_prev == 0
      then pure false
      else do
        second ← read_super_block_entry entry.util_ll_prev
        pure (not (second.util_ll_next == last))

unfoldable pub mend_tail : M (Unit {0})
unfolding tail_is_broken
mend_tail = do
  broken ← tail_is_broken
  if broken
      then (do
        ll_rebuild_dirty 0
        s ← get
        load_entry s.this_entry.this_index
        read_super_block_entry s.head.last_dirty_inode
        pure tt)
      else pure tt

-- The two ways to put an entry behind the last one: in an empty queue, and behind `last`.
-- (With `last` 0, which a sound queue excludes, the source would read the file's head instead.)
unfoldable pub link_behind : ℕ → ℕ → M (Unit {0})
link_behind last ino = do
  entry ← read_super_block_entry last
  write_super_block_entry last (record entry { util_ll_next = ino })

unfoldable pub first_dirty : ℕ → M (Unit {0})
first_dirty ino = do
  modify_head λ h. record h {
    first_dirty_inode = ino;
    last_dirty_inode = ino;
    num_dirty = h.num_dirty +ℤ pos 1;
  }
  modify_entry λ e. record e { util_ll_next = 0; util_ll_prev = 0 }
  wake_sync

unfoldable pub next_dirty : ℕ → M (Unit {0})
unfolding mend_tail link_behind
next_dirty ino = do
  mend_tail
  s ← get
  let last = s.head.last_dirty_inode
  modify_entry λ e. record e { util_ll_next = 0; util_ll_prev = last }
  modify_head λ h. record h { last_dirty_inode = ino; num_dirty = h.num_dirty +ℤ pos 1 }
  wake_sync
  link_behind last ino

unfoldable pub count_dirty : ℕ → M (Unit {0})
unfolding change_dirty_cache
count_dirty ino = do
  s ← get
  let size = s.meta_size ino
  if is_zero_ℤ size
      then pure tt
      else do modify_entry λ e. record e { dirty_meta_size = size }; change_dirty_cache size

unfoldable pub set_status : Status → M (Unit {0})
set_status which = modify_entry (λ e. record e { status = which })

unfoldable pub join_dirty : ℕ → M (Unit {0})
unfolding first_dirty next_dirty count_dirty set_status
join_dirty ino = do
  s ← get
  if being_recovered_later s ino
      then modify_entry (λ e. record e { dirty_meta_size = s.meta_size ino; status = is_dirty })
      else (do
        (if s.head.first_dirty_inode == 0 then first_dirty ino else next_dirty ino)
        count_dirty ino
        set_status is_dirty)

unfoldable pub wake_dsync : M (Unit {0})
wake_dsync = modify (λ s. record s { dsync_wait = sem_check_and_release s.dsync_wait })

unfoldable pub first_to_delete : ℕ → M (Unit {0})
unfolding wake_dsync
first_to_delete ino = do
  modify_head λ h. record h {
    first_to_delete_inode = ino;
    last_to_delete_inode = ino;
    num_to_be_deleted = h.num_to_be_deleted +ℤ pos 1;
  }
  modify_entry λ e. record e { util_ll_next = 0; util_ll_prev = 0 }
  wake_dsync

unfoldable pub next_to_delete : ℕ → M (Unit {0})
unfolding wake_dsync link_behind
next_to_delete ino = do
  s ← get
  let last = s.head.last_to_delete_inode
  modify_entry λ e. record e { util_ll_next = 0; util_ll_prev = last }
  modify_head
      λ h. record h { last_to_delete_inode = ino; num_to_be_deleted = h.num_to_be_deleted +ℤ pos 1 }
  wake_dsync
  link_behind last ino

unfoldable pub join_to_delete : ℕ → M (Unit {0})
unfolding first_to_delete next_to_delete set_status
join_to_delete ino = do
  s ← get
  (if s.head.first_to_delete_inode == 0 then first_to_delete ino else next_to_delete ino)
  set_status to_be_deleted

-- The other lists are kept elsewhere: nothing is enqueued, and the status stays.
unfoldable pub join : Status → ℕ → M (Unit {0})
unfolding join_dirty join_to_delete
join is_dirty ino = join_dirty ino
join to_be_deleted ino = join_to_delete ino
join _ ino = pure tt

unfoldable pub ll_enqueue : ℕ → Status → M (Unit {0})
unfolding already_there join
ll_enqueue ino which = do
  s ← get
  if status_eq s.this_entry.status which then already_there which ino else do
    (if status_eq s.this_entry.status no_ll then pure tt else ll_dequeue ino)
    join which ino
