-- ===== src/FileTables.antt =====
-- The table of open files and directories (src/HCFS/filetables.c, filetables.h). `fh_table_sem` is
-- held through each operation, which is one step. Pointers to files and to entries of the meta cache
-- are numbers.
pub mod Search
pub mod Handles
pub mod Calls
pub mod Snapshot
mod Tests
use hcfs.Base.{
  ℕ, ◌+◌, ◌-◌, ◌%◌, zero, suc, Bool, true, false, ◌&&◌, List, [], ◌∷◌, Option, none, some, Errno,
  enomem, eperm, other, Result, ok, err, leb, if◌then◌else◌,
}
use hcfs.Base.Int.{ℤ, pos, negsuc}
use hcfs.Base.Tables.{update}

abbrev pub max_open_file_entries : ℕ
max_open_file_entries = 65536

-- `NO_FH`, `IS_FH`, `IS_DIRH`.
pub data FhFlag : Type 0 where
  no_fh is_fh is_dirh : FhFlag

-- `FH_ENTRY`.
pub record FhEntry : Type 0 where
  pub thisinode : ℕ
  pub flags : ℕ
  pub meta_cache_ptr : Option ℕ
  pub meta_cache_locked : Bool
  pub blockfptr : Option ℕ
  pub opened_block : ℤ
  pub cached_page_index : ℤ
  pub cached_filepos : ℤ
  pub cached_paged_out_count : ℕ
  pub block_sem : ℕ

-- `DIRH_ENTRY`.
pub record DirhEntry : Type 0 where
  pub thisinode : ℕ
  pub flags : ℕ
  pub snapshot_ptr : Option ℕ
  pub snap_ref_sem : ℕ
  pub wait_ref_sem : ℕ

-- `FH_TABLE_TYPE`.
pub record FhTable : Type 0 where
  pub num_opened_files : ℕ
  pub entry_table_flags : ℕ → FhFlag
  pub entry_table : ℕ → FhEntry
  pub direntry_table : ℕ → DirhEntry
  pub have_nonsnap_dir : Bool
  pub last_available_index : ℕ

abbrev zero_fh_entry : FhEntry
zero_fh_entry = record {
  thisinode = 0;
  flags = 0;
  meta_cache_ptr = none;
  meta_cache_locked = false;
  blockfptr = none;
  opened_block = pos 0;
  cached_page_index = pos 0;
  cached_filepos = pos 0;
  cached_paged_out_count = 0;
  block_sem = 0;
}

abbrev zero_dirh_entry : DirhEntry
zero_dirh_entry = record {
  thisinode = 0;
  flags = 0;
  snapshot_ptr = none;
  snap_ref_sem = 0;
  wait_ref_sem = 0;
}

-- Whether each of the three calls of `malloc` returns memory.
unfoldable pub init_system_fh_table : (for_flags for_entries for_dirs : Bool) → Result FhTable
init_system_fh_table for_flags for_entries for_dirs =
    if for_flags && for_entries && for_dirs
    then ok (record {
      num_opened_files = 0;
      entry_table_flags = λ _. no_fh;
      entry_table = λ _. zero_fh_entry;
      direntry_table = λ _. zero_dirh_entry;
      have_nonsnap_dir = false;
      last_available_index = 0;
    })
    else err enomem

-- The loop that looks for a free index; `none` when the fuel is used up.
unfoldable pub free_index : ℕ → (ℕ → FhFlag) → ℕ → Option ℕ
free_index zero table index = none
free_index (suc fuel) table index =
    let rest = free_index fuel table ((index + 1) % max_open_file_entries) in
    elim (table index) [ no_fh ↦ some index | is_fh ↦ rest | is_dirh ↦ rest ]

abbrev opened_dir : ℕ → ℕ → DirhEntry
opened_dir ino flags = record {
  thisinode = ino;
  flags = flags;
  snapshot_ptr = none;
  snap_ref_sem = 0;
  wait_ref_sem = 1;
}

abbrev opened_file : ℕ → ℕ → FhEntry → FhEntry
opened_file ino flags e = record e {
  thisinode = ino;
  flags = flags;
  meta_cache_ptr = none;
  meta_cache_locked = false;
  blockfptr = none;
  opened_block = negsuc 0;
  cached_page_index = negsuc 0;
  cached_filepos = negsuc 0;
  block_sem = 1;
}

unfoldable pub open_at : ℕ → (ino flags : ℕ) → (isdir : Bool) → FhTable → FhTable
open_at index ino flags true t = record t {
  entry_table_flags = update t.entry_table_flags index is_dirh;
  direntry_table = update t.direntry_table index (opened_dir ino flags);
  have_nonsnap_dir = true;
  num_opened_files = t.num_opened_files + 1;
}
open_at index ino flags false t = record t {
  entry_table_flags = update t.entry_table_flags index is_fh;
  entry_table = update t.entry_table index (opened_file ino flags (t.entry_table index));
  num_opened_files = t.num_opened_files + 1;
}

abbrev pub emfile : Errno
emfile = other 24

-- `none` where the loop does not end.
unfoldable pub open_fh : (ino flags : ℕ) → (isdir : Bool) → FhTable → Option (Result ℕ × FhTable)
unfolding free_index open_at
open_fh ino flags isdir t =
    if leb max_open_file_entries t.num_opened_files
    then some (err emfile, t)
    else elim (free_index max_open_file_entries t.entry_table_flags
        (t.last_available_index % max_open_file_entries)) [
          | none ↦ none
          | some index ↦ some (ok index, open_at index ino flags isdir t)
        ]

-- What is left to do when the table is unlocked again: nothing, to close and unlock an entry of the
-- meta cache, or to lock that of an inode before.
pub data CacheCall : Type 0 where
  no_call : CacheCall
  close_locked : Option ℕ → CacheCall
  lock_and_close : ℕ → CacheCall

abbrev closed_file : FhEntry → FhEntry
closed_file e = record e {
  thisinode = 0;
  meta_cache_ptr = none;
  meta_cache_locked = false;
  blockfptr = none;
  opened_block = negsuc 0;
  block_sem = 0;
}

abbrev closed_dir : DirhEntry → DirhEntry
closed_dir e = record e { thisinode = 0; snapshot_ptr = none; snap_ref_sem = 0; wait_ref_sem = 0 }

abbrev cache_call : FhEntry → CacheCall
cache_call e =
    if e.meta_cache_locked then close_locked e.meta_cache_ptr else lock_and_close e.thisinode

abbrev pub close_index : ℕ → FhTable → FhTable
close_index index t = record t {
  entry_table_flags = update t.entry_table_flags index no_fh;
  last_available_index = index;
  num_opened_files = t.num_opened_files - 1;
}

abbrev pub is_nonnegative : ℤ → Bool
is_nonnegative (pos n) = true
is_nonnegative (negsuc n) = false

-- The file that `fclose` is called for.
abbrev pub file_to_close : FhEntry → Option ℕ
file_to_close e = if is_nonnegative e.opened_block then e.blockfptr else none

pub record Closed : Type 0 where
  pub result : Result (Unit {0})
  pub table : FhTable
  pub file : Option ℕ
  pub cache : CacheCall

unfoldable pub close_by : FhFlag → ℕ → FhTable → Closed
close_by is_fh index t = record {
  result = ok tt;
  table = record (close_index index t) {
    entry_table = update t.entry_table index (closed_file (t.entry_table index));
  };
  file = file_to_close (t.entry_table index);
  cache = cache_call (t.entry_table index);
}
close_by is_dirh index t = record {
  result = ok tt;
  table = record (close_index index t) {
    direntry_table = update t.direntry_table index (closed_dir (t.direntry_table index));
  };
  file = (t.direntry_table index).snapshot_ptr;
  cache = no_call;
}
close_by no_fh index t = record { result = err eperm; table = t; file = none; cache = no_call }

unfoldable pub close_fh : ℕ → FhTable → Closed
unfolding close_by
close_fh index t = close_by (t.entry_table_flags index) index t
