-- ===== src/Progress/Creation.antt =====
-- `create_progress_file` (src/HCFS/atomic_tocloud.c). The state is the file at the inode's path: its
-- contents while the path has a file, and those of the open file behind the call of `open`.
use hcfs.Base.{ℕ, ◌/◌, ◌<◌, ◌≡◌, refl, sym, subst, Bool, true, false, [], none, Result, arith}
use hcfs.Pages.Failure.{
  Consumed, Consumed-later, Consumed-refl, Consumed-trans, HasFailed, HasFailed-after,
}
use hcfs.Pages.File.{
  M, cells, end_after, later, modify, no_pointers, pure, system_call, ◌>>=◌, ◌>>◌,
}
use hcfs.Pages.Ends.{Ends, call-Ends, then-Ends}
use hcfs.Pages.Kept.{IsWellFormed}
use hcfs.Pages.Levels.{check_page_level, path, path_below}
use hcfs.Pages.Tree.{walk-break}
use hcfs.Progress.State.{ProgressFile, ProgressMeta, preparing, progress_meta_size, slot, zero_page}
use hcfs.Progress.Query.{page_by, status_of, status_page}

-- What `memset` leaves.
abbrev pub zero_meta : ProgressMeta
zero_meta = record {
  now_action = 0;
  backend_size = 0;
  total_backend_blocks = 0;
  toupload_size = 0;
  total_toupload_blocks = 0;
  direct = 0;
  single_indirect = 0;
  double_indirect = 0;
  triple_indirect = 0;
  quadruple_indirect = 0;
}

-- The header that is written.
abbrev pub new_meta : ProgressMeta
new_meta = record zero_meta { now_action = preparing }

-- `mkdir` where `access` finds no directory; its error is not looked at.
unfoldable pub make_directory : (has_directory : Bool) → M ProgressFile (Unit {0})
make_directory true = pure tt
make_directory false = modify later

-- `UNLINK` where `access` finds a file; whether there is one then.
unfoldable pub unlink_old : (has_file : Bool) → M ProgressFile Bool
unlink_old true = system_call >> pure false
unlink_old false = pure false

-- A file without any byte, its reads giving zeros.
abbrev pub empty_file : ProgressFile → ProgressFile
empty_file s = record s {
  header = zero_meta;
  pointers = λ _. no_pointers;
  pages = λ _. zero_page;
  file_end = 0;
  held = false;
}

-- `open` with O_CREAT and without O_TRUNC: a file that is there keeps its contents.
unfoldable pub open_file : (has_file : Bool) → M ProgressFile (Unit {0})
open_file true = system_call >> modify (λ s. record s { held = false })
open_file false = system_call >> modify empty_file

-- `PWRITE` of the header of the new file.
unfoldable pub write_meta : ProgressMeta → M ProgressFile (Unit {0})
write_meta m =
    system_call
    >> modify (λ s. record s { header = m; file_end = end_after 0 progress_meta_size s.file_end })

unfoldable pub create_progress_file : (has_directory has_file : Bool) → M ProgressFile (Unit {0})
unfolding make_directory unlink_old open_file write_meta
create_progress_file has_directory has_file = do
  make_directory has_directory
  still_there ← unlink_old has_file
  open_file still_there
  write_meta new_meta

-- A file whose header and pages have no pointers.
pub unlinked-IsWellFormed :
    (s : ProgressFile) → ((p i : ℕ) → cells slot s p i ≡ 0) → 0 < s.file_end → IsWellFormed slot s
unlinked-IsWellFormed s unlinked begun = record {
  place = λ _. [];
  tree = record {
    root = refl;
    begun = omega (arith, begun);
    linked = λ p i h. absurd (h (unlinked p i));
    below = λ p i. rw (unlinked p i) (omega (arith, begun));
    fresh = λ p i h. unlinked p i;
  };
}

no_page_by :
    (s : ProgressFile)
    → ((p i : ℕ) → cells slot s p i ≡ 0)
    → (t : ℕ) (r : Result ℕ) → page_by s t r ≡ 0
unfolding page_by path
no_page_by s unlinked t (Result.ok l) =
    walk-break (cells slot s) 0 l (path_below l t) (unlinked 0 l)
no_page_by s unlinked t (Result.err e) = refl

pub no_entry : (s : ProgressFile) (b : ℕ) → status_page s (b / 100) ≡ 0 → status_of s b ≡ none
unfolding status_of
no_entry s b e = rw e

no_status : (s : ProgressFile) → ((p i : ℕ) → cells slot s p i ≡ 0) → (b : ℕ) → status_of s b ≡ none
unfolding status_page
no_status s unlinked b = no_entry s b (no_page_by s unlinked (b / 100) (check_page_level (b / 100)))

-- A new file: it has its header only, which says that the upload is prepared, is well formed and
-- unlocked, and no block has a status.
pub record IsNew (s : ProgressFile) : Type 0 where
  pub well_formed : IsWellFormed slot s
  pub no_statuses : (b : ℕ) → status_of s b ≡ none
  pub action : s.header.now_action ≡ preparing
  pub header_only : s.file_end ≡ progress_meta_size
  pub unlocked : s.held ≡ false

-- The new file with the outcomes that are left.
abbrev new_file : ProgressFile → ProgressFile
new_file s = record (empty_file s) { header = new_meta; file_end = progress_meta_size }

new_cells : (s : ProgressFile) (p i : ℕ) → cells slot (new_file s) p i ≡ 0
unfolding cells
new_cells s p i = ground arith

new_file-IsNew : (s : ProgressFile) → IsNew (new_file s)
new_file-IsNew s = record {
  well_formed = unlinked-IsWellFormed (new_file s) (new_cells s) (omega arith);
  no_statuses = no_status (new_file s) (new_cells s);
  action = refl;
  header_only = refl;
  unlocked = refl;
}

abbrev CallFailed : ProgressFile → ProgressFile → Type 0
CallFailed s s' = HasFailed s.outcomes s'.outcomes

-- A call with a change of the state, when calls were made before.
changing-Ends :
    (s t : ProgressFile) (g : ProgressFile → ProgressFile)
    → Consumed s.outcomes t.outcomes
    → Ends (λ _ u. u ≡ g (later t)) (CallFailed s) ((system_call >> modify g) t)
changing-Ends s t g used =
    call-Ends (λ _ u. u ≡ g (later t)) (CallFailed s) t (HasFailed-after used) (λ _. modify g) refl

abbrev written_meta : ProgressFile → ProgressFile
written_meta s = record s {
  header = new_meta;
  file_end = end_after 0 progress_meta_size s.file_end;
}

header-Ends :
    (s t : ProgressFile)
    → Consumed s.outcomes t.outcomes
    → Ends (λ _ u. IsNew u) (CallFailed s) (write_meta new_meta (empty_file t))
unfolding write_meta
header-Ends s t used =
    call-Ends (λ _ u. IsNew u) (CallFailed s) (empty_file t) (HasFailed-after used)
      (λ _. modify written_meta) (new_file-IsNew (later t))

-- Behind the call that removes an old file.
opening-Ends :
    (s t : ProgressFile)
    → Consumed s.outcomes t.outcomes
    → Ends (λ _ u. IsNew u) (CallFailed s) ((open_file false >> write_meta new_meta) t)
unfolding open_file
opening-Ends s t used =
    then-Ends (λ _ u. u ≡ empty_file (later t)) (λ _ u. IsNew u) (CallFailed s) (open_file false)
      (λ _. write_meta new_meta) t (changing-Ends s t empty_file used)
      (λ _ u e.
        subst (λ v. Ends (λ _ w. IsNew w) (CallFailed s) (write_meta new_meta v)) (sym e)
          (header-Ends s (later t) (Consumed-trans used (Consumed-later t.outcomes))))

removing-Ends :
    (has_file : Bool) (s t : ProgressFile)
    → Consumed s.outcomes t.outcomes
    → Ends
        (λ still_there u. (still_there ≡ false) × Consumed s.outcomes u.outcomes)
        (CallFailed s)
        (unlink_old has_file t)
unfolding unlink_old
removing-Ends false s t used = (refl, used)
removing-Ends true s t used =
    call-Ends (λ still_there u. (still_there ≡ false) × Consumed s.outcomes u.outcomes)
      (CallFailed s) t (HasFailed-after used) (λ _. pure false)
      (refl, Consumed-trans used (Consumed-later t.outcomes))

creation-Ends :
    (has_file : Bool) (s t : ProgressFile)
    → Consumed s.outcomes t.outcomes
    → Ends
        (λ _ u. IsNew u)
        (CallFailed s)
        ((unlink_old has_file >>= λ still_there. open_file still_there >> write_meta new_meta) t)
creation-Ends has_file s t used =
    then-Ends (λ still_there u. (still_there ≡ false) × Consumed s.outcomes u.outcomes)
      (λ _ u. IsNew u) (CallFailed s) (unlink_old has_file)
      (λ still_there. open_file still_there >> write_meta new_meta) t
      (removing-Ends has_file s t used)
      (λ still_there u (e, used').
        subst (λ b. Ends (λ _ w. IsNew w) (CallFailed s) ((open_file b >> write_meta new_meta) u))
          (sym e) (opening-Ends s u used'))

-- Whatever the file at the path was, and whether the directory and the file were there:
-- `create_progress_file` returns without an error and then the file is new, well formed, unlocked,
-- of its header alone, which has the action PREPARING, and no block has a status in it; or it returns
-- an error, and the last call that was made has failed.
pub create_progress_file-IsNew :
    (has_directory has_file : Bool) (s : ProgressFile)
    → Ends
        (λ _ s'. IsNew s')
        (λ s'. HasFailed s.outcomes s'.outcomes)
        (create_progress_file has_directory has_file s)
unfolding create_progress_file make_directory
create_progress_file-IsNew true has_file s = creation-Ends has_file s s (Consumed-refl s.outcomes)
create_progress_file-IsNew false has_file s =
    creation-Ends has_file s (later s) (Consumed-later s.outcomes)
