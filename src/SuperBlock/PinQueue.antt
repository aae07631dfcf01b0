-- ===== src/SuperBlock/PinQueue.antt =====
-- `pin_ll_enqueue` and `pin_ll_dequeue`: the queue of inodes to be pinned.
use hcfs.Base.{ℕ, Bool, true, false, not, ◌&&◌, ◌==◌, if◌then◌else◌, eio}
use hcfs.Base.Int.{pos, ◌+ℤ◌, ◌-ℤ◌}
use hcfs.SuperBlock.State.{SuperBlock, PinStatus, st_unpin, st_pinning, st_del, st_pin}
use hcfs.SuperBlock.Io.{
  M, pure, throw, ◌>>=◌, ◌>>◌, get, modify, modify_head, modify_entry, read_super_block_entry,
  write_super_block_entry, write_super_block_head, store_entry,
}
use hcfs.SuperBlock.Stats.{sem_check_and_release}

abbrev pub pin_status_eq : PinStatus → PinStatus → Bool
pin_status_eq st_del st_del = true
pin_status_eq st_unpin st_unpin = true
pin_status_eq st_pinning st_pinning = true
pin_status_eq st_pin st_pin = true
pin_status_eq _ _ = false

unfoldable pub pin_first : ℕ → M (Unit {0})
pin_first ino = do
  modify_entry λ e. record e { pin_ll_next = 0; pin_ll_prev = 0; pin_status = st_pinning }
  store_entry ino
  modify_head λ h. record h { first_pin_inode = ino; last_pin_inode = ino }

unfoldable pub pin_next : ℕ → M (Unit {0})
pin_next ino = do
  s ← get
  let last = s.head.last_pin_inode
  modify_entry λ e. record e { pin_ll_next = 0; pin_ll_prev = last; pin_status = st_pinning }
  store_entry ino
  last_entry ← read_super_block_entry last
  write_super_block_entry last (record last_entry { pin_ll_next = ino })
  modify_head λ h. record h { last_pin_inode = ino }

unfoldable pub wake_pin : M (Unit {0})
wake_pin = modify (λ s. record s { pin_wait = sem_check_and_release s.pin_wait })

-- The pin status that the source returns for an inode that is not unpinned is no error: the
-- callers go on.
unfoldable pub pin_ll_enqueue : ℕ → M (Unit {0})
unfolding pin_first pin_next wake_pin
pin_ll_enqueue ino = do
  s ← get
  if not (pin_status_eq s.this_entry.pin_status st_unpin) then pure tt else do
    (if s.head.last_pin_inode == 0 then pin_first ino else pin_next ino)
    modify_head λ h. record h { num_pinning_inodes = h.num_pinning_inodes +ℤ pos 1 }
    wake_pin
    write_super_block_head

unfoldable pub pin_unlink_prev : M (Unit {0})
pin_unlink_prev = do
  s ← get
  let e = s.this_entry
  if e.pin_ll_prev == 0 then modify_head (λ h. record h { first_pin_inode = e.pin_ll_next }) else do
    prev_entry ← read_super_block_entry e.pin_ll_prev
    write_super_block_entry e.pin_ll_prev (record prev_entry { pin_ll_next = e.pin_ll_next })

unfoldable pub pin_unlink_next : M (Unit {0})
pin_unlink_next = do
  s ← get
  let e = s.this_entry
  if e.pin_ll_next == 0 then modify_head (λ h. record h { last_pin_inode = e.pin_ll_prev }) else do
    next_entry ← read_super_block_entry e.pin_ll_next
    write_super_block_entry e.pin_ll_next (record next_entry { pin_ll_prev = e.pin_ll_prev })

-- No neighbours, and not the first one: the inode is not in the queue.
unfoldable pub not_in_pin_queue : SuperBlock → ℕ → Bool
not_in_pin_queue s ino =
    (s.this_entry.pin_ll_next == 0)
    && ((s.this_entry.pin_ll_prev == 0) && not (s.head.first_pin_inode == ino))

unfoldable pub pin_ll_dequeue : ℕ → M (Unit {0})
unfolding pin_unlink_prev pin_unlink_next not_in_pin_queue
pin_ll_dequeue ino = do
  s ← get
  if not (pin_status_eq s.this_entry.pin_status st_pinning)
      then pure tt
      else if not_in_pin_queue s ino
      then throw eio
      else do
        pin_unlink_prev
        pin_unlink_next
        modify_entry λ e. record e { pin_ll_next = 0; pin_ll_prev = 0 }
        store_entry ino
        modify_head λ h. record h { num_pinning_inodes = h.num_pinning_inodes -ℤ pos 1 }
        write_super_block_head
