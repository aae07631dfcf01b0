-- ===== src/FileTables/Snapshot.antt =====
-- `handle_dirmeta_snapshot` (src/HCFS/filetables.c): a snapshot of a directory's meta file for all
-- of its handles that have none.
pub mod Sound
use hcfs.Base.{
  ℕ, ◌+◌, zero, suc, Bool, true, false, Option, none, some, Errno, eio, Result, ok, err, ◌==◌,
  if◌then◌else◌, not,
}
use hcfs.Base.Tables.{update}
use hcfs.FileTables.{max_open_file_entries, FhFlag, no_fh, is_fh, is_dirh, DirhEntry, FhTable}

-- The copy of the meta file: made, or an error with which the code leaves, and whether it had the
-- snapshot file open then.
pub data Copy : Type 0 where
  made : Copy
  not_made : Errno → (is_open : Bool) → Copy

-- The outcomes of the calls on files: the copy, and what `fopen` returns for each handle.
pub record Files : Type 0 where
  pub copy : Copy
  pub reopened : ℕ → Option ℕ

-- The local variables, with the table's directories, and how often `fclose` has been called for
-- `snapfptr`.
pub record Snapping : Type 0 where
  pub dirs : ℕ → DirhEntry
  pub snap_created : Bool
  pub have_opened_nonsnap : Bool
  pub fcloses : ℕ

-- `stopped` is a jump to the error handling.
pub data Progress : Type 0 where
  going : Snapping → Progress
  stopped : Errno → Snapping → Progress

abbrev pub with_snapshot : ℕ → DirhEntry → DirhEntry
with_snapshot file e = record e { snapshot_ptr = some file; snap_ref_sem = 0; wait_ref_sem = 1 }

unfoldable pub open_snapshot : Option ℕ → ℕ → Snapping → Progress
open_snapshot (some file) index s =
    going (record s { dirs = update s.dirs index (with_snapshot file (s.dirs index)) })
open_snapshot none index s = stopped eio (record s { fcloses = s.fcloses + 1 })

unfoldable pub make_snapshot : Copy → Files → ℕ → Snapping → Progress
unfolding open_snapshot
make_snapshot made c index s =
    open_snapshot (c.reopened index) index
      (record s { snap_created = true; fcloses = s.fcloses + 1 })
make_snapshot (not_made e is_open) c index s =
    stopped e (record s { fcloses = if is_open then s.fcloses + 1 else s.fcloses })

-- A handle of a directory without a snapshot; the flag says whether it is for the inode.
unfoldable pub snap_dir : (is_same : Bool) → Files → ℕ → Snapping → Progress
unfolding open_snapshot make_snapshot
snap_dir true c index s =
    if s.snap_created
    then open_snapshot (c.reopened index) index s
    else make_snapshot c.copy c index s
snap_dir false c index s = going (record s { have_opened_nonsnap = true })

unfoldable pub snap_at : FhFlag → Option ℕ → (is_same : Bool) → Files → ℕ → Snapping → Progress
unfolding snap_dir
snap_at is_dirh none is_same c index s = snap_dir is_same c index s
snap_at is_dirh (some file) is_same c index s = going s
snap_at is_fh snapshot is_same c index s = going s
snap_at no_fh snapshot is_same c index s = going s

abbrev pub snap_index : (ℕ → FhFlag) → ℕ → Files → ℕ → Snapping → Progress
snap_index table ino c index s =
    snap_at (table index) (s.dirs index).snapshot_ptr ((s.dirs index).thisinode == ino) c index s

unfoldable pub snap_loop : ℕ → (ℕ → FhFlag) → ℕ → Files → ℕ → Snapping → Progress
unfolding snap_at
snap_loop zero table ino c index s = going s
snap_loop (suc left) table ino c index s = elim (snap_index table ino c index s) [
  | going s' ↦ snap_loop left table ino c (index + 1) s'
  | stopped e s' ↦ stopped e s'
]

abbrev pub start : FhTable → Snapping
start t = record {
  dirs = t.direntry_table;
  snap_created = false;
  have_opened_nonsnap = false;
  fcloses = 0;
}

unfoldable pub finish : Progress → FhTable → Result (Unit {0}) × FhTable
finish (going s) t =
    (ok tt, record t { direntry_table = s.dirs; have_nonsnap_dir = s.have_opened_nonsnap })
finish (stopped e s) t = (err e, record t { direntry_table = s.dirs })

unfoldable pub handle_dirmeta_snapshot :
    (has_meta : Bool) → Files → (ino : ℕ) → FhTable → Result (Unit {0}) × FhTable
unfolding snap_loop finish
handle_dirmeta_snapshot false c ino t = (err eio, t)
handle_dirmeta_snapshot true c ino t =
    if not t.have_nonsnap_dir
    then (ok tt, t)
    else finish (snap_loop max_open_file_entries t.entry_table_flags ino c 0 (start t)) t
