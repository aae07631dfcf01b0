-- ===== src/Progress/Info.antt =====
-- `get_progress_info`, `set_progress_info` and `change_action` (src/HCFS/atomic_tocloud.c).
use hcfs.Base.{
  ℕ, zero, suc, ◌+◌, ◌*◌, ◌/◌, ◌%◌, true, false, List, [], ◌∷◌, Option, none, some, enoent, ◌==◌,
  if◌then◌else◌,
}
use hcfs.Base.Tables.{update}
use hcfs.Pages.File.{
  M, err, ok, pure, read_header, read_page, set_held, throw, write_header, write_page, ◌>>=◌, ◌>>◌,
}
use hcfs.Progress.State.{
  max_block_entries_per_page, BlockUploadingStatus, ProgressFile, status_page_size,
}
use hcfs.Progress.Pages.{query_status_page, create_status_page}

-- The call is an error without the status (the caller's is zeroed) where there is none.
unfoldable pub get_progress_info : (block_index : ℕ) → M ProgressFile BlockUploadingStatus
unfolding query_status_page
get_progress_info block_index = do
  set_held true
  offset ← query_status_page block_index
  if offset == 0 then (set_held false >> throw enoent) else do
    block_page ← read_page offset
    set_held false
    pure (block_page (block_index % max_block_entries_per_page))

-- The parameters of `set_progress_info` that may be null.
pub record ProgressChange : Type 0 where
  pub toupload_exist : Option ℕ
  pub backend_exist : Option ℕ
  pub new_toupload_seq : Option ℕ
  pub new_backend_seq : Option ℕ
  pub new_toupload_gdrive_id : Option (List ℕ)
  pub new_backend_gdrive_id : Option (List ℕ)
  pub finish : Option ℕ

abbrev pub if_given : {A : Type 0} → Option A → A → A
if_given none old = old
if_given (some a) old = a

-- The `char` with the first bit of one value and the second of another, and with the second of one
-- and the first of another.
abbrev pub with_first_bit : Option ℕ → ℕ → ℕ
with_first_bit none old = old
with_first_bit (some exist) old = exist % 2 + 2 * (old / 2 % 2)

abbrev pub with_second_bit : Option ℕ → ℕ → ℕ
with_second_bit none old = old
with_second_bit (some exist) old = (exist * 2) % 256 + old % 2

-- strncpy, of the characters before the terminating null character.
abbrev pub gdrive_id_length : ℕ
gdrive_id_length = 63

abbrev pub take : ℕ → List ℕ → List ℕ
take zero xs = []
take (suc n) [] = []
take (suc n) (x ∷ xs) = x ∷ take n xs

abbrev pub copied_id : Option (List ℕ) → List ℕ → List ℕ
copied_id none old = old
copied_id (some id) old = take gdrive_id_length id

unfoldable pub changed_status : ProgressChange → BlockUploadingStatus → BlockUploadingStatus
changed_status c b = record {
  finish_uploading = if_given c.finish b.finish_uploading;
  block_exist = with_second_bit c.backend_exist (with_first_bit c.toupload_exist b.block_exist);
  to_upload_gdrive_id = copied_id c.new_toupload_gdrive_id b.to_upload_gdrive_id;
  backend_gdrive_id = copied_id c.new_backend_gdrive_id b.backend_gdrive_id;
  to_upload_seq = if_given c.new_toupload_seq b.to_upload_seq;
  backend_seq = if_given c.new_backend_seq b.backend_seq;
}

-- An error unlocks the file, too.
abbrev pub unlock_on_error : {A : Type 0} → M ProgressFile A → M ProgressFile A
unlock_on_error m s = elim (m s) [
  | ok a s' ↦ ok a s'
  | err e s' ↦ err e (record s' { held = false })
]

unfoldable pub store_status :
    (block_index : ℕ) → ProgressChange → (offset : ℕ) → M ProgressFile (Unit {0})
unfolding changed_status
store_status block_index c offset = if offset == 0 then set_held false else do
  status_page ← read_page offset
  let i = block_index % max_block_entries_per_page
  write_page status_page_size offset (update status_page i (changed_status c (status_page i)))
  set_held false

unfoldable pub set_progress_info : (block_index : ℕ) → ProgressChange → M ProgressFile (Unit {0})
unfolding create_status_page store_status
set_progress_info block_index c =
    unlock_on_error
      (set_held true >> (create_status_page block_index >>= store_status block_index c))

-- What an error leaves locked stays locked.
unfoldable pub change_action : (new_action : ℕ) → M ProgressFile (Unit {0})
change_action new_action = do
  set_held true
  progress_meta ← read_header
  write_header (record progress_meta { now_action = new_action })
  set_held false
