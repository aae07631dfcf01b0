-- ===== src/SuperBlock/SyncPoint.antt =====
-- src/HCFS/syncpoint_control.c: how the sync point moves when its inode leaves a queue, and when
-- syncing all data is complete.
use hcfs.Base.{
  ℕ, ◌+◌, ◌-◌, Bool, false, not, ◌&&◌, ◌||◌, none, some, other, ◌==◌, ltb, if◌then◌else◌,
}
use hcfs.SuperBlock.State.{
  SuperBlockHead, SyncPointData, SyncPointInfo, Status, is_dirty, to_be_deleted, done, failed,
  short,
}
use hcfs.SuperBlock.Io.{
  M, ok, err, pure, ◌>>=◌, ◌>>◌, get, modify, hang, ignore_error, next_outcome, later_outcomes,
}

-- `PWRITE`: only a negative return value is an error.
unfoldable pub pwrite_macro : M (Unit {0})
pwrite_macro s = elim (next_outcome s.outcomes) [
  | done ↦ ok tt (record s { outcomes = later_outcomes s.outcomes })
  | failed e ↦ err (other e) (record s { outcomes = later_outcomes s.outcomes })
  | short ↦ ok tt (record s { outcomes = later_outcomes s.outcomes })
]

-- `sem_wait` and `sem_post` of `ctl_sem`.
unfoldable pub wait_ctl_sem : M SyncPointData
wait_ctl_sem = do
  s ← get
  elim s.sync_point_info [
    | none ↦ hang
    | some info ↦ if info.ctl_sem == 0 then hang else do
      modify λ t. record t { sync_point_info = some (record info { ctl_sem = info.ctl_sem - 1 }) }
      pure info.points
  ]

unfoldable pub post_ctl_sem : M (Unit {0})
post_ctl_sem = do
  s ← get
  elim s.sync_point_info [
    | none ↦ hang
    | some info ↦
        modify λ t. record t { sync_point_info = some (record info { ctl_sem = info.ctl_sem + 1 }) }
  ]

-- A failed `PWRITE` goes to the end of the function, past `sem_post`.
unfoldable pub write_syncpoint_data : M (Unit {0})
write_syncpoint_data = do
  points ← wait_ctl_sem
  pwrite_macro
  modify λ s. record s { sync_point_file = some points }
  post_ctl_sem

-- `free_syncpoint_resource(TRUE)`
unfoldable pub free_syncpoint_resource : M (Unit {0})
free_syncpoint_resource = do
  s ← get
  elim s.sync_point_info [
    | none ↦ pure tt
    | some info ↦ modify (λ t. record t {
      sync_point_info = none;
      sync_point_is_set = false;
      sync_point_file = none;
    })
  ]

unfoldable pub reset_upload_sync_point : SuperBlockHead → SyncPointData → SyncPointData
reset_upload_sync_point h d = record d {
  upload_sync_point = h.last_dirty_inode;
  upload_sync_complete = false;
}

unfoldable pub reset_delete_sync_point : SuperBlockHead → SyncPointData → SyncPointData
reset_delete_sync_point h d = record d {
  delete_sync_point = h.last_to_delete_inode;
  delete_sync_complete = false;
}

-- The `switch` of `check_sync_complete`: is the dirty queue, and is the delete queue, not empty once
-- `this_inode` has left `which_ll`?
unfoldable pub still_dirty : Status → ℕ → SuperBlockHead → Bool × Bool
still_dirty is_dirty ino h = (not (h.last_dirty_inode == ino), not (h.last_to_delete_inode == 0))
still_dirty to_be_deleted ino h =
    (not (h.last_dirty_inode == 0), not (h.last_to_delete_inode == ino))
still_dirty _ ino h = (false, false)

unfoldable pub reset_points : Bool × Bool → SuperBlockHead → SyncPointData → SyncPointData
unfolding reset_upload_sync_point reset_delete_sync_point
reset_points (up, del) h d =
    let d1 = if up then reset_upload_sync_point h d else d in
    if del then reset_delete_sync_point h d1 else d1

-- The system is clean: give the sync point up and tell the user.
unfoldable pub complete_sync : M (Unit {0})
complete_sync =
    free_syncpoint_resource
    >> modify (λ s. record s { sync_complete_events = s.sync_complete_events + 1 })

-- Dirty again: the sync point is reset, while retries are left.
unfoldable pub retry_sync : Status → ℕ → SyncPointInfo → M (Unit {0})
unfolding still_dirty reset_points
retry_sync which ino info = do
  s ← get
  let dirty = still_dirty which ino s.head
  let info' : SyncPointInfo = record info {
    sync_retry_times = info.sync_retry_times - 1;
    points = reset_points dirty s.head info.points;
  }
  modify λ t. record t { sync_point_info = some info' }
  if dirty.0 || dirty.1 then ignore_error write_syncpoint_data else complete_sync

unfoldable pub check_points : Status → ℕ → SyncPointInfo → M (Unit {0})
unfolding retry_sync
check_points which ino info =
    if not (info.points.upload_sync_complete && info.points.delete_sync_complete)
    then pure tt
    else if ltb 0 info.sync_retry_times
    then retry_sync which ino info
    else complete_sync

unfoldable pub check_sync_complete : Status → ℕ → M (Unit {0})
unfolding check_points
check_sync_complete which ino = do
  s ← get
  elim s.sync_point_info [ none ↦ hang | some info ↦ check_points which ino info ]

-- The two cases of `move_sync_point`: the new data, and `need_write`.
unfoldable pub move_upload : ℕ → ℕ → SyncPointData → SyncPointData × Bool
move_upload ino prev d =
    if d.upload_sync_complete
    then (d, false)
    else let moved = d.upload_sync_point == ino in
      let point = if moved then prev else d.upload_sync_point in
      (
        record d { upload_sync_point = point; upload_sync_complete = point == 0 },
        moved || (point == 0),
      )

unfoldable pub move_delete : ℕ → ℕ → SyncPointData → SyncPointData × Bool
move_delete ino prev d =
    if d.delete_sync_complete
    then (d, false)
    else let moved = d.delete_sync_point == ino in
      let point = if moved then prev else d.delete_sync_point in
      (
        record d { delete_sync_point = point; delete_sync_complete = point == 0 },
        moved || (point == 0),
      )

unfoldable pub finish_move : Status → ℕ → SyncPointInfo → SyncPointData × Bool → M (Unit {0})
finish_move which ino info (d, need_write) = do
  let info' : SyncPointInfo = record info { points = d }
  modify λ s. record s { sync_point_info = some info' }
  if need_write then ignore_error write_syncpoint_data >> check_sync_complete which ino else pure tt

-- The `switch` of `move_sync_point`: other lists have no sync point.
unfoldable pub move_points : Status → ℕ → ℕ → SyncPointInfo → M (Unit {0})
unfolding move_upload move_delete finish_move
move_points is_dirty ino prev info =
    finish_move is_dirty ino info (move_upload ino prev info.points)
move_points to_be_deleted ino prev info =
    finish_move to_be_deleted ino info (move_delete ino prev info.points)
move_points _ ino prev info = pure tt

-- `prev` is the `util_ll_prev` of the inode that is dequeued.
unfoldable pub move_sync_point : Status → ℕ → ℕ → M (Unit {0})
unfolding move_points
move_sync_point which ino prev = do
  s ← get
  elim s.sync_point_info [ none ↦ pure tt | some info ↦ move_points which ino prev info ]
