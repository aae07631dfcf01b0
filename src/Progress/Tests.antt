-- ===== src/Progress/Tests.antt =====
-- Runs of the operations, and the theorems at concrete inputs.
use hcfs.Base.{
  ℕ, [], ◌∷◌, none, some, Option, ◌≡◌, ◌≤◌, ◌/◌, ◌%◌, refl, arith, Bool, true, false, eio, Result,
}
use hcfs.Progress.State.{ProgressFile, slot, zero_page, zero_status}
use hcfs.Progress.Creation.{
  IsNew, create_progress_file, create_progress_file-IsNew, make_directory, new_meta, open_file,
  unlink_old, unlinked-IsWellFormed, write_meta,
}
use hcfs.Pages.Failure.{HasFailed}
use hcfs.Pages.Kept.{IsWellFormed}
use hcfs.Progress.Info.{
  ProgressChange, change_action, get_progress_info, set_progress_info, changed_status,
}
use hcfs.Pages.File.{
  cells, no_pointers, set_held, read_header, system_call, outcome, seek_end, write_pointers,
  write_header, read_pointers, write_page, read_page, Run, done, err, failed, ok, ◌>>◌,
}
use hcfs.Pages.Ends.{Ends}
use hcfs.Base.Int.{pos}
use hcfs.Pages.Levels
use hcfs.Progress.Longpow.{longpow, longpow-power, two_64}
use hcfs.Pages.Levels.{check_page_level, index_in_level}
use hcfs.Pages.Paths.{first_page}
use hcfs.Progress.Query.{Failed, Only, status_of}
use hcfs.Progress.Get.{Absent, get_progress_info-Ends}
use hcfs.Progress.Set.{Changed, NotChanged, set_progress_info-Updates}
use hcfs.Progress.Table.{
  entry_after, get_progress_info-set_progress_info, set_progress_info-Ignores,
}

-- A file with its header only.
abbrev created_file : ProgressFile
created_file = record {
  header = new_meta;
  pointers = λ _. no_pointers;
  pages = λ _. zero_page;
  file_end = 80;
  held = false;
  outcomes = [];
}

created_cells : (p i : ℕ) → cells slot created_file p i ≡ 0
unfolding cells
created_cells p i = ground arith

created_file-IsWellFormed : IsWellFormed slot created_file
created_file-IsWellFormed = unlinked-IsWellFormed created_file created_cells (omega arith)

-- A longer file, which is locked, with a failing `mkdir`.
abbrev old_file : ProgressFile
old_file = record created_file { file_end = 20000; held = true; outcomes = failed eio ∷ [] }

created_anew : create_progress_file false true old_file ≡ ok tt created_file
unfolding create_progress_file make_directory unlink_old open_file write_meta system_call outcome
created_anew = refl

create_progress_file-IsNew_example :
    Ends
      (λ _ s'. IsNew s')
      (λ s'. HasFailed old_file.outcomes s'.outcomes)
      (create_progress_file false true old_file)
create_progress_file-IsNew_example = create_progress_file-IsNew false true old_file

abbrev finished : ProgressChange
finished = record {
  toupload_exist = some 1;
  backend_exist = some 1;
  new_toupload_seq = some 7;
  new_backend_seq = none;
  new_toupload_gdrive_id = none;
  new_backend_gdrive_id = none;
  finish = some 1;
}

abbrev result_of : {A : Type 0} → Run ProgressFile A → Option A
result_of (ok a s) = some a
result_of (err e s) = none

abbrev lock_of : {A : Type 0} → Run ProgressFile A → Bool
lock_of (ok a s) = s.held
lock_of (err e s) = s.held

-- Three levels of pages of pointers are created, and the status is found through them.
set_and_get :
    result_of (
      (set_progress_info 110000000 finished
          >> (set_progress_info 5 finished
              >> (set_progress_info 110000050 finished >> get_progress_info 110000000)))
        created_file)
    ≡ some (changed_status finished zero_status)
unfolding set_progress_info get_progress_info check_page_level set_held read_header system_call
    outcome seek_end write_pointers write_header read_pointers write_page read_page index_in_level
set_and_get = refl

-- A read that fails leaves the file locked.
abbrev failing_file : ProgressFile
failing_file = record created_file { outcomes = done ∷ failed eio ∷ [] }

change_action_locked : lock_of (change_action 1 failing_file) ≡ true
unfolding change_action set_held read_header system_call outcome write_header
change_action_locked = refl

page_level : check_page_level (110000000 / 100) ≡ Result.ok 3
unfolding check_page_level
page_level = refl

set_progress_info-Updates_example :
    Ends
      (λ _ s'. Changed created_file 110000000 finished s')
      (NotChanged created_file)
      (set_progress_info 110000000 finished created_file)
set_progress_info-Updates_example =
    set_progress_info-Updates 110000000 3 finished created_file created_file-IsWellFormed page_level

no_outcomes : created_file.outcomes ≡ []
no_outcomes = refl

get_progress_info-set_progress_info_example :
    Ends
      (λ st _. entry_after created_file 110000000 finished 110000007 ≡ some st)
      (λ _. entry_after created_file 110000000 finished 110000007 ≡ none)
      ((set_progress_info 110000000 finished >> get_progress_info 110000007) created_file)
get_progress_info-set_progress_info_example =
    get_progress_info-set_progress_info 110000000 3 finished 110000007 created_file
      created_file-IsWellFormed page_level no_outcomes

get_progress_info-Ends_example :
    Ends
      (λ st s'. (status_of created_file 5 ≡ some st) × Only created_file s')
      (Absent created_file 5)
      (get_progress_info 5 created_file)
get_progress_info-Ends_example = get_progress_info-Ends 5 created_file

far_block : first_page 5 ≤ 110061260200000 / 100
unfolding first_page
far_block = omega arith

set_progress_info-Ignores_example :
    Ends
      (λ _ s'. Only created_file s' × (status_of s' 110061260200000 ≡ none))
      (Failed created_file)
      (set_progress_info 110061260200000 finished created_file)
set_progress_info-Ignores_example =
    set_progress_info-Ignores 110061260200000 finished created_file far_block

-- Eleven is odd twice on the way, and behind the table.
longpow-power_example : longpow 1024 (pos 11) ≡ some (Levels.longpow 1024 11 % two_64)
longpow-power_example = longpow-power 1024 11 (omega arith)

longpow_three : longpow 3 (pos 11) ≡ some 177147
unfolding longpow
longpow_three = refl
