-- ===== src/MetaPages.antt =====
-- The pages of a regular file's meta file, as `seek_page` and `seek_page2` (src/HCFS/metaops.c) look
-- for them. The state has the meta file with its cached header; `held` says that the entry of the meta
-- cache is locked. `meta_cache_lookup_file_data` and `meta_cache_open_file` are calls that may fail.
pub mod Seek
pub mod Entries
mod Tests
use hcfs.Base.{
  ℕ, zero, suc, ◌/◌, ◌%◌, Bool, true, false, List, Errno, Result, ◌==◌, leb, if◌then◌else◌, einval,
  eperm, eio,
}
use hcfs.Base.Int.{ℤ, pos, negsuc}
use hcfs.Pages.File.{
  M, PageFile, err, ok, pure, read_header, read_pointers, system_call, throw, ◌>>=◌, ◌>>◌,
}
use hcfs.Pages.Levels.{check_page_level, index_in_level, longpow, pointers_per_page}

-- `BLOCK_ENTRY` and `BLOCK_ENTRY_PAGE`.
pub record BlockEntry : Type 0 where
  pub status : ℕ
  pub uploaded : ℕ
  pub paged_out_count : ℕ
  pub seqnum : ℕ
  pub block_id : List ℕ

pub record BlockEntryPage : Type 0 where
  pub num_entries : ℕ
  pub block_entries : ℕ → BlockEntry

-- `FILE_META_TYPE`.
pub record FileMeta : Type 0 where
  pub next_xattr_page : ℕ
  pub direct : ℕ
  pub single_indirect : ℕ
  pub double_indirect : ℕ
  pub triple_indirect : ℕ
  pub quadruple_indirect : ℕ
  pub generation : ℕ
  pub source_arch : ℕ
  pub root_inode : ℕ
  pub finished_seq : ℕ
  pub local_pin : ℕ

abbrev pub MetaFile : Type 0
MetaFile = PageFile FileMeta BlockEntryPage

-- The position in the header for a level.
abbrev pub meta_slot : FileMeta → ℕ → ℕ
meta_slot m level =
    if level == 0
    then m.direct
    else (if level == 1
        then m.single_indirect
        else (if level == 2
            then m.double_indirect
            else (if level == 3
                then m.triple_indirect
                else (if level == 4 then m.quadruple_indirect else 0))))

-- FSEEK to a position, and FTELL, which then gives this position.
unfoldable pub seek_and_tell : ℕ → M MetaFile ℕ
seek_and_tell target_pos = system_call >> (system_call >> pure target_pos)

-- FREAD of a page of pointers: every failure is EIO.
unfoldable pub fread_pointers : ℕ → M MetaFile (ℕ → ℕ)
fread_pointers target_pos s = elim (read_pointers target_pos s) [
  | ok page s' ↦ ok page s'
  | err e s' ↦ err eio s'
]

-- The page of pointers at a position, if the stream could be set to it.
unfoldable pub pointers_at : ℕ → ((ℕ → ℕ) → M MetaFile ℕ) → M MetaFile ℕ
unfolding seek_and_tell fread_pointers
pointers_at target_pos rest = do
  tmp_pos ← seek_and_tell target_pos
  if tmp_pos == target_pos then (fread_pointers target_pos >>= rest) else pure 0

-- The loop of `_load_indirect`.
unfoldable pub load_below : (count ptr_index target_pos : ℕ) → M MetaFile ℕ
unfolding pointers_at
load_below zero ptr_index target_pos = pointers_at target_pos λ page. pure (page ptr_index)
load_below (suc count) ptr_index target_pos = pointers_at target_pos λ page.
    let next = page (ptr_index / longpow pointers_per_page (suc count)) in
    let rest = load_below count (ptr_index % longpow pointers_per_page (suc count)) next in
    if next == 0 then pure 0 else rest

unfoldable pub load_indirect : (target_page : ℕ) → FileMeta → (level : ℕ) → M MetaFile ℕ
unfolding load_below
load_indirect target_page temp_meta zero = pure 0
load_indirect target_page temp_meta (suc count) =
    if leb count 3
    then load_below count (index_in_level (suc count) target_page) (meta_slot temp_meta (suc count))
    else pure 0

-- The `switch` of both functions: `opening` is what is called before the file is read.
unfoldable pub seek_level :
    M MetaFile (Unit {0}) → (target_page : ℕ) → FileMeta → (level : ℕ) → M MetaFile ℕ
unfolding load_indirect
seek_level opening target_page temp_meta zero = pure temp_meta.direct
seek_level opening target_page temp_meta (suc count) =
    opening
    >> (if meta_slot temp_meta (suc count) == 0
        then pure 0
        else load_indirect target_page temp_meta (suc count))

unfoldable pub seek_by :
    M MetaFile (Unit {0}) → (target_page : ℕ) → FileMeta → Result ℕ → M MetaFile ℕ
unfolding seek_level
seek_by opening target_page temp_meta (Result.ok level) =
    seek_level opening target_page temp_meta level
seek_by opening target_page temp_meta (Result.err e) = throw einval

abbrev pub meta_cache_open_file : M MetaFile (Unit {0})
meta_cache_open_file = system_call

abbrev pub meta_cache_lookup_file_data : M MetaFile FileMeta
meta_cache_lookup_file_data = read_header

unfoldable pub seek_page : (target_page : ℤ) → M MetaFile ℕ
unfolding seek_by
seek_page (negsuc n) s = err eperm s
seek_page (pos target_page) s =
    if s.held
    then (meta_cache_lookup_file_data >>= λ temp_meta.
          seek_by meta_cache_open_file target_page temp_meta (check_page_level target_page))
        s
    else err eperm s

-- The header comes from the caller.
unfoldable pub seek_page2 : FileMeta → (target_page : ℤ) → M MetaFile ℕ
unfolding seek_by
seek_page2 temp_meta (negsuc n) = throw eperm
seek_page2 temp_meta (pos target_page) =
    seek_by (pure tt) target_page temp_meta (check_page_level target_page)
