-- ===== src/Progress/Pages.antt =====
-- `query_status_page` and `create_status_page` of src/HCFS/atomic_tocloud.c.
use hcfs.Base.{ℕ, zero, suc, ◌/◌, ◌%◌, Result, ◌==◌, if◌then◌else◌}
use hcfs.Base.Tables.{update}
use hcfs.Pages.File.{
  M, err, no_pointers, ok, pure, read_header, read_pointers, seek_end, write_header, write_page,
  write_pointers, ◌>>=◌, ◌>>◌,
}
use hcfs.Progress.State.{
  max_block_entries_per_page, zero_page, ProgressMeta, ProgressFile, slot, set_slot,
  status_page_size,
}
use hcfs.Pages.Levels.{check_page_level, index_in_level, longpow, pointers_per_page}

-- The pages of pointers from the one at `pos` down to the status page, without and with creation.
unfoldable pub query_below : (level ptr_index pos : ℕ) → M ProgressFile ℕ
query_below zero ptr_index pos = read_pointers pos >>= λ page. pure (page ptr_index)
query_below (suc level) ptr_index pos = do
  page ← read_pointers pos
  let next = page (ptr_index / longpow pointers_per_page (suc level))
  let rest = query_below level (ptr_index % longpow pointers_per_page (suc level)) next
  if next == 0 then pure 0 else rest

unfoldable pub query_level : (which_indirect target_page : ℕ) → ProgressMeta → M ProgressFile ℕ
unfolding query_below
query_level zero target_page progress_meta = pure progress_meta.direct
query_level (suc level) target_page progress_meta =
    let pos = slot progress_meta (suc level) in
    if pos == 0 then pure 0 else query_below level (index_in_level (suc level) target_page) pos

-- The return value 0 stands for an error, too.
abbrev pub zero_on_error : M ProgressFile ℕ → M ProgressFile ℕ
zero_on_error m s = elim (m s) [ ok a s' ↦ ok a s' | err e s' ↦ ok 0 s' ]

unfoldable pub query_status_page : (block_index : ℕ) → M ProgressFile ℕ
unfolding query_level
query_status_page block_index =
    let target_page = block_index / max_block_entries_per_page in
    zero_on_error (
      read_header >>= λ progress_meta. elim (check_page_level target_page) [
        | Result.ok which_indirect ↦ query_level which_indirect target_page progress_meta
        | Result.err e ↦ pure 0
      ])

-- The position behind a pointer of the page at `pos`: that of a new page of pointers where it is 0.
unfoldable pub next_pointers : (pos : ℕ) → (ℕ → ℕ) → (i : ℕ) → M ProgressFile ℕ
next_pointers pos page i =
    if page i == 0
    then (do
      ret_pos ← seek_end
      write_pointers ret_pos no_pointers
      write_pointers pos (update page i ret_pos)
      pure ret_pos)
    else pure (page i)

unfoldable pub status_page_at : (pos : ℕ) → (ℕ → ℕ) → (i : ℕ) → M ProgressFile ℕ
status_page_at pos page i =
    if page i == 0
    then (do
      ret_pos ← seek_end
      write_page status_page_size ret_pos zero_page
      write_pointers pos (update page i ret_pos)
      pure ret_pos)
    else pure (page i)

unfoldable pub create_below : (level ptr_index pos : ℕ) → M ProgressFile ℕ
unfolding next_pointers status_page_at
create_below zero ptr_index pos = read_pointers pos >>= λ page. status_page_at pos page ptr_index
create_below (suc level) ptr_index pos = do
  page ← read_pointers pos
  next ← next_pointers pos page (ptr_index / longpow pointers_per_page (suc level))
  create_below level (ptr_index % longpow pointers_per_page (suc level)) next

unfoldable pub root_pointers : (which_indirect : ℕ) → ProgressMeta → M ProgressFile ℕ
root_pointers which_indirect progress_meta =
    if slot progress_meta which_indirect == 0
    then (do
      ret_pos ← seek_end
      write_pointers ret_pos no_pointers
      write_header (set_slot progress_meta which_indirect ret_pos)
      pure ret_pos)
    else pure (slot progress_meta which_indirect)

unfoldable pub direct_page : ProgressMeta → M ProgressFile ℕ
direct_page progress_meta =
    if progress_meta.direct == 0
    then (do
      ret_pos ← seek_end
      write_page status_page_size ret_pos zero_page
      write_header (record progress_meta { direct = ret_pos })
      pure ret_pos)
    else pure progress_meta.direct

unfoldable pub create_level : (which_indirect target_page : ℕ) → ProgressMeta → M ProgressFile ℕ
unfolding direct_page root_pointers create_below
create_level zero target_page progress_meta = direct_page progress_meta
create_level (suc level) target_page progress_meta =
    root_pointers (suc level) progress_meta
    >>= create_below level (index_in_level (suc level) target_page)

unfoldable pub create_status_page : (block_index : ℕ) → M ProgressFile ℕ
unfolding create_level
create_status_page block_index =
    let target_page = block_index / max_block_entries_per_page in
    read_header >>= λ progress_meta. elim (check_page_level target_page) [
      | Result.ok which_indirect ↦ create_level which_indirect target_page progress_meta
      | Result.err e ↦ pure 0
    ]
