-- ===== src/SuperBlock/Stats.antt =====
-- `change_system_meta` of src/HCFS/utils.c, the semaphores that wake other threads, and
-- `IS_SBENTRY_BEING_RECOVER_LATER` of src/HCFS/recover_super_block.h.
use hcfs.Base.{ℕ, Bool, ◌&&◌, ◌==◌, leb, if◌then◌else◌}
use hcfs.Base.Int.{ℤ, pos, ◌+ℤ◌, ltb_ℤ}
use hcfs.SuperBlock.State.{SuperBlock, SystemData}
use hcfs.SuperBlock.Io.{M, ◌>>=◌, get, modify}

-- `x += delta; if (x < 0) x = 0;`
unfoldable pub add_clamped : ℤ → ℤ → ℤ
add_clamped x delta = let y = x +ℤ delta in if ltb_ℤ y (pos 0) then pos 0 else y

unfoldable pub change_systemdata :
    (system_size meta_size cache_data_size cache_blocks dirty_cache unpin_dirty : ℤ)
    → SystemData
    → SystemData
change_systemdata system_size meta_size cache_data_size cache_blocks dirty_cache unpin_dirty d =
    record {
      system_size = add_clamped d.system_size system_size;
      system_meta_size = add_clamped d.system_meta_size meta_size;
      cache_size = add_clamped d.cache_size cache_data_size;
      cache_blocks = add_clamped d.cache_blocks cache_blocks;
      dirty_cache_size = add_clamped d.dirty_cache_size dirty_cache;
      unpin_dirty_data_size = add_clamped d.unpin_dirty_data_size unpin_dirty;
    }

-- A semaphore at zero is posted: `sem_check_and_release` of src/HCFS/utils.h.
unfoldable pub sem_check_and_release : ℕ → ℕ
sem_check_and_release n = if n == 0 then 1 else n

-- The statistics are also flushed (`need_sync`), which is I/O with an ignored result here.
unfoldable pub change_system_meta :
    (system_size meta_size cache_data_size cache_blocks dirty_cache unpin_dirty : ℤ) → M (Unit {0})
change_system_meta ss ms cs cb dc ud = modify λ s. record s {
  systemdata = change_systemdata ss ms cs cb dc ud s.systemdata;
  something_to_replace =
      if ltb_ℤ ud (pos 0)
      then sem_check_and_release s.something_to_replace
      else s.something_to_replace;
}

unfoldable pub being_recovered_later : SuperBlock → ℕ → Bool
being_recovered_later s ino =
    s.recovery.is_ongoing && (leb s.recovery.start_inode ino && leb ino s.recovery.end_inode)

unfoldable pub change_system_meta_ignore_dirty :
    ℕ
    → (system_size meta_size cache_data_size cache_blocks dirty_cache unpin_dirty : ℤ)
    → M (Unit {0})
change_system_meta_ignore_dirty ino ss ms cs cb dc ud = do
  s ← get
  if being_recovered_later s ino
      then change_system_meta ss ms cs cb (pos 0) (pos 0)
      else change_system_meta ss ms cs cb dc ud
