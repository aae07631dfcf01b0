-- ===== src/FileTables/Tests.antt =====
-- The table of open files on concrete inputs.
use hcfs.Base.{ℕ, ◌<◌, ◌≡◌, refl, true, false, none, some, ok, arith, sym}
use hcfs.Base.Int.{pos}
use hcfs.Base.Tables.{update}
use hcfs.Base.Family.{sum_below, sum-constant, sum-update}
use hcfs.FileTables.{
  max_open_file_entries, no_fh, is_fh, is_dirh, FhEntry, DirhEntry, FhTable, open_fh, close_fh,
}
use hcfs.FileTables.Search.{is_used}
use hcfs.FileTables.Handles.{IsSound, Sets}
use hcfs.FileTables.Calls.{open_fh-Sets, close_fh-open_fh}
use hcfs.FileTables.Snapshot.{made, handle_dirmeta_snapshot}
use hcfs.FileTables.Snapshot.Sound.{Snapped, handle_dirmeta_snapshot-Snapped}

abbrev no_entry : FhEntry
no_entry = record {
  thisinode = 0;
  flags = 0;
  meta_cache_ptr = none;
  meta_cache_locked = false;
  blockfptr = none;
  opened_block = pos 0;
  cached_page_index = pos 0;
  cached_filepos = pos 0;
  cached_paged_out_count = 0;
  block_sem = 0;
}

abbrev no_dir : DirhEntry
no_dir = record {
  thisinode = 0;
  flags = 0;
  snapshot_ptr = none;
  snap_ref_sem = 0;
  wait_ref_sem = 0;
}

abbrev unused : FhTable
unused = record {
  num_opened_files = 0;
  entry_table_flags = λ _. no_fh;
  entry_table = λ _. no_entry;
  direntry_table = λ _. no_dir;
  have_nonsnap_dir = false;
  last_available_index = 65535;
}

unused-IsSound : IsSound unused
unused-IsSound = record {
  counted = sym (sum-constant is_used max_open_file_entries no_fh refl);
  nonsnap = λ i lt e z. cc;
}

open_fh-Sets_example :
    (i : ℕ) × (u : FhTable) × (open_fh 7 0 true unused ≡ some (ok i, u))
    × (i < max_open_file_entries)
    × (no_fh ≡ no_fh)
    × Sets unused i is_dirh 7 u
open_fh-Sets_example = open_fh-Sets unused unused-IsSound 7 0 true 3 (omega arith) refl

close_fh-open_fh_example :
    (i : ℕ) × (u : FhTable) × (open_fh 7 0 false unused ≡ some (ok i, u))
    × ((close_fh i u).result ≡ ok tt)
    × ((k : ℕ) → (close_fh i u).table.entry_table_flags k ≡ no_fh)
    × ((close_fh i u).table.num_opened_files ≡ 0)
close_fh-open_fh_example = close_fh-open_fh unused 7 0 false 3 unused-IsSound (omega arith) refl

-- A directory is open at index 2.
abbrev one_dir : FhTable
one_dir = record unused {
  num_opened_files = 1;
  entry_table_flags = update (λ _. no_fh) 2 is_dirh;
  direntry_table = update (λ _. no_dir) 2 (record no_dir { thisinode = 7; wait_ref_sem = 1 });
  have_nonsnap_dir = true;
}

one_dir-IsSound : IsSound one_dir
one_dir-IsSound = record {
  counted = omega (
    arith,
    sum-update is_used max_open_file_entries (λ _. no_fh) 2 is_dirh (omega arith),
    sum-constant is_used max_open_file_entries no_fh refl,
  );
  nonsnap = λ i lt e z. refl;
}

handle_dirmeta_snapshot-Snapped_example :
    Snapped 7
      (handle_dirmeta_snapshot true (record { copy = made; reopened = λ i. some i }) 7 one_dir)
handle_dirmeta_snapshot-Snapped_example =
    handle_dirmeta_snapshot-Snapped one_dir one_dir-IsSound 7 true
      (record { copy = made; reopened = λ i. some i })

-- Every index is in use.
abbrev full : FhTable
full = record unused { num_opened_files = 65536; entry_table_flags = λ _. is_fh }

sum-full : (n : ℕ) → sum_below is_used n (λ _. is_fh) ≡ n
unfolding sum_below
sum-full ℕ.zero = refl
sum-full (ℕ.suc n) = omega (arith, sum-full n)

full-IsSound : IsSound full
full-IsSound = record { counted = sym (sum-full 65536); nonsnap = λ i lt e z. cc }
