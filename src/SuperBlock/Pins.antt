-- ===== src/SuperBlock/Pins.antt =====
-- `super_block_finish_pinning`, `super_block_mark_pin` and `super_block_mark_unpin` of
-- src/HCFS/super_block.c, outside of restoring.
use hcfs.Base.{ℕ, Bool, if◌then◌else◌}
use hcfs.SuperBlock.State.{PinStatus, st_unpin, st_pinning, st_pin}
use hcfs.SuperBlock.Io.{M, pure, ◌>>=◌, ◌>>◌, get, modify_entry, load_entry, store_entry}
use hcfs.SuperBlock.PinQueue.{pin_ll_enqueue, pin_ll_dequeue}

unfoldable pub set_pin_status : PinStatus → ℕ → M (Unit {0})
set_pin_status p ino = do modify_entry (λ e. record e { pin_status = p }); store_entry ino

unfoldable pub finish_pin : PinStatus → ℕ → M (Unit {0})
unfolding set_pin_status
finish_pin st_pinning ino = do pin_ll_dequeue ino; set_pin_status st_pin ino
finish_pin _ ino = pure tt

unfoldable pub super_block_finish_pinning : ℕ → M (Unit {0})
unfolding finish_pin
super_block_finish_pinning ino = do load_entry ino; s ← get; finish_pin s.this_entry.pin_status ino

-- `is_reg` is `S_ISREG(this_mode)`.
unfoldable pub start_pin : PinStatus → Bool → ℕ → M (Unit {0})
unfolding set_pin_status
start_pin st_unpin is_reg ino =
    if is_reg
    then pin_ll_enqueue ino >> set_pin_status st_pinning ino
    else set_pin_status st_pin ino
start_pin _ is_reg ino = pure tt

unfoldable pub super_block_mark_pin : ℕ → Bool → M (Unit {0})
unfolding start_pin
super_block_mark_pin ino is_reg = do
  load_entry ino
  s ← get
  start_pin s.this_entry.pin_status is_reg ino

unfoldable pub unpin : PinStatus → ℕ → M (Unit {0})
unfolding set_pin_status
unpin st_pinning ino = do pin_ll_dequeue ino; set_pin_status st_unpin ino
unpin st_pin ino = set_pin_status st_unpin ino
unpin _ ino = pure tt

-- The mode of the inode only decides on a log message.
unfoldable pub super_block_mark_unpin : ℕ → M (Unit {0})
unfolding unpin
super_block_mark_unpin ino = do load_entry ino; s ← get; unpin s.this_entry.pin_status ino
