-- ===== src/SuperBlock/Reclaim.antt =====
-- `super_block_delete` of src/HCFS/super_block.c: the number of an inode whose data is gone from the
-- cloud is noted for reuse.
use hcfs.Base.{ℕ, ◌++◌, [], ◌∷◌, true, false, if◌then◌else◌, eio, other}
use hcfs.Base.Int.{pos, ◌+ℤ◌}
use hcfs.SuperBlock.State.{to_be_reclaimed, st_del, done, failed}
use hcfs.SuperBlock.Io.{
  M, ok, err, no_return, pure, ◌>>=◌, ◌>>◌, get, modify, modify_head, modify_entry, next_outcome,
  later_outcomes, write_super_block_head, load_entry, store_entry,
}
use hcfs.SuperBlock.StatusQueue.Dequeue.{status_eq, ll_dequeue}
use hcfs.SuperBlock.Inodes.{drop_pin}

-- `fopen` or `fseek`, which do not come out short.
unfoldable pub file_call : M (Unit {0})
file_call s = elim (next_outcome s.outcomes) [
  | failed e ↦ err (other e) (record s { outcomes = later_outcomes s.outcomes })
  | _ ↦ ok tt (record s { outcomes = later_outcomes s.outcomes })
]

-- The `fwrite` of one number to the unclaimed list.
unfoldable pub write_unclaimed : M (Unit {0})
write_unclaimed s = elim (next_outcome s.outcomes) [
  | done ↦ ok tt (record s { outcomes = later_outcomes s.outcomes })
  | _ ↦ err eio (record s { outcomes = later_outcomes s.outcomes })
]

unfoldable pub reclaim_entry : ℕ → M (Unit {0})
reclaim_entry ino = do
  drop_pin ino
  s ← get
  (if status_eq s.this_entry.status to_be_reclaimed then pure tt else do
    ll_dequeue ino
    (if s.now_reclaim_fullscan
        then pure tt
        else modify_entry (λ e. record e { status = to_be_reclaimed })))
  modify_entry λ e. record e { in_transit = false; pin_status = st_del }
  store_entry ino

-- An entry that cannot be read is passed over; an error behind that is returned.
unfoldable pub reclaim_if_read : ℕ → M (Unit {0})
unfolding reclaim_entry
reclaim_if_read ino s = elim (load_entry ino s) [
  | ok _ s' ↦ reclaim_entry ino s'
  | err e s' ↦ ok tt s'
  | no_return ↦ no_return
]

-- During a full scan the number goes to a temporary file.
unfoldable pub note_temporary : ℕ → M (Unit {0})
unfolding file_call write_unclaimed
note_temporary ino = do
  s ← get
  (if s.temp_unclaimed_is_open
      then pure tt
      else do file_call; modify λ t. record t { temp_unclaimed_is_open = true })
  file_call
  write_unclaimed
  modify λ t. record t { temp_unclaimed = t.temp_unclaimed ++ (ino ∷ []) }

unfoldable pub note_unclaimed : ℕ → M (Unit {0})
unfolding file_call write_unclaimed
note_unclaimed ino = do
  file_call
  write_unclaimed
  modify λ t. record t { unclaimed_list = t.unclaimed_list ++ (ino ∷ []) }
  modify_head λ h. record h { num_to_be_reclaimed = h.num_to_be_reclaimed +ℤ pos 1 }
  write_super_block_head

unfoldable pub super_block_delete : ℕ → M (Unit {0})
unfolding reclaim_if_read note_temporary note_unclaimed
super_block_delete ino = do
  reclaim_if_read ino
  s ← get
  if s.now_reclaim_fullscan then note_temporary ino else note_unclaimed ino
