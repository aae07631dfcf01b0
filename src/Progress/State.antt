-- ===== src/Progress/State.antt =====
-- The records of src/HCFS/atomic_tocloud.h, and the size of their pages.
use hcfs.Base.{ℕ, List, [], ◌==◌, if◌then◌else◌}
use hcfs.Pages.File.{PageFile}

abbrev pub max_block_entries_per_page : ℕ
max_block_entries_per_page = 100

-- `BLOCK_UPLOADING_STATUS`.
pub record BlockUploadingStatus : Type 0 where
  pub finish_uploading : ℕ
  pub block_exist : ℕ
  pub to_upload_gdrive_id : List ℕ
  pub backend_gdrive_id : List ℕ
  pub to_upload_seq : ℕ
  pub backend_seq : ℕ

-- `BLOCK_UPLOADING_PAGE`.
abbrev pub UploadingPage : Type 0
UploadingPage = ℕ → BlockUploadingStatus

abbrev pub zero_status : BlockUploadingStatus
zero_status = record {
  finish_uploading = 0;
  block_exist = 0;
  to_upload_gdrive_id = [];
  backend_gdrive_id = [];
  to_upload_seq = 0;
  backend_seq = 0;
}

abbrev pub zero_page : UploadingPage
zero_page _ = zero_status

-- `PROGRESS_META`.
pub record ProgressMeta : Type 0 where
  pub now_action : ℕ
  pub backend_size : ℕ
  pub total_backend_blocks : ℕ
  pub toupload_size : ℕ
  pub total_toupload_blocks : ℕ
  pub direct : ℕ
  pub single_indirect : ℕ
  pub double_indirect : ℕ
  pub triple_indirect : ℕ
  pub quadruple_indirect : ℕ

abbrev pub ProgressFile : Type 0
ProgressFile = PageFile ProgressMeta UploadingPage

-- The position in the header for a level, and the header with another one.
abbrev pub slot : ProgressMeta → ℕ → ℕ
slot m level =
    if level == 0
    then m.direct
    else (if level == 1
        then m.single_indirect
        else (if level == 2
            then m.double_indirect
            else (if level == 3
                then m.triple_indirect
                else (if level == 4 then m.quadruple_indirect else 0))))

abbrev pub set_slot : ProgressMeta → ℕ → ℕ → ProgressMeta
set_slot m level p = record m {
  direct = if level == 0 then p else m.direct;
  single_indirect = if level == 1 then p else m.single_indirect;
  double_indirect = if level == 2 then p else m.double_indirect;
  triple_indirect = if level == 3 then p else m.triple_indirect;
  quadruple_indirect = if level == 4 then p else m.quadruple_indirect;
}

-- sizeof(BLOCK_UPLOADING_PAGE) and sizeof(PROGRESS_META).
abbrev pub status_page_size : ℕ
status_page_size = 14400

abbrev pub progress_meta_size : ℕ
progress_meta_size = 80

abbrev pub preparing : ℕ
preparing = 0
