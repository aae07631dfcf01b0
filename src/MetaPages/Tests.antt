-- ===== src/MetaPages/Tests.antt =====
-- The theorems on searches at a meta file with a direct page and one behind a page of pointers.
use hcfs.Base.{
  ℕ, ◌≡◌, refl, List, [], ◌∷◌, arith, ◌==◌, if◌then◌else◌, ◌&&◌, true, false, leb, ◌<◌, ok,
}
use hcfs.Base.Int.{pos}
use hcfs.Pages.Ends.{Ends}
use hcfs.Pages.File.{Run, cells, outcome, read_pointers, system_call}
use hcfs.Pages.Kept.{IsWellFormed}
use hcfs.Pages.Levels.{check_page_level, index_in_level, path, pointers_per_page}
use hcfs.Pages.Tree.{walk}
use hcfs.MetaPages.{
  BlockEntryPage, FileMeta, MetaFile, fread_pointers, meta_slot, pointers_at, seek_and_tell,
  seek_page, seek_page2,
}
use hcfs.MetaPages.Entries.{AsIn, seek_pages-AsIn, with_pointers}
use hcfs.MetaPages.Seek.{CallFailed, Sought, seek_page2-apart, seek_pages-Answer}

abbrev header : FileMeta
header = record {
  next_xattr_page = 0;
  direct = 500;
  single_indirect = 1000;
  double_indirect = 0;
  triple_indirect = 0;
  quadruple_indirect = 0;
  generation = 1;
  source_arch = 0;
  root_inode = 2;
  finished_seq = 0;
  local_pin = 1;
}

abbrev block_page : BlockEntryPage
block_page = record {
  num_entries = 0;
  block_entries =
      λ _. record { status = 0; uploaded = 0; paged_out_count = 0; seqnum = 0; block_id = [] };
}

abbrev meta_file : MetaFile
meta_file = record {
  header = header;
  pointers = λ p i. if (p == 1000) && (i == 3) then 9192 else 0;
  pages = λ _. block_page;
  file_end = 30000;
  held = true;
  outcomes = [];
}

abbrev place : ℕ → List ℕ
place p =
    if p == 500
    then 0 ∷ []
    else (if p == 1000 then 1 ∷ [] else (if p == 9192 then 3 ∷ 1 ∷ [] else []))

meta_file-IsWellFormed : IsWellFormed meta_slot meta_file
unfolding cells
meta_file-IsWellFormed = record {
  place = place;
  tree = record {
    root = refl;
    begun = omega arith;
    linked = λ p i h. ground arith;
    below = λ p i. ground arith;
    fresh = λ p i h. ground arith;
  };
}

fourth_level : check_page_level 4 ≡ ok 1
unfolding check_page_level
fourth_level = refl

seek_pages-Answer_example :
    Ends
      (Sought meta_file (walk (cells meta_slot meta_file) 0 (path 1 4)))
      (CallFailed meta_file)
      (seek_page (pos 4) meta_file)
    × Ends
        (Sought meta_file (walk (cells meta_slot meta_file) 0 (path 1 4)))
        (CallFailed meta_file)
        (seek_page2 header (pos 4) meta_file)
seek_pages-Answer_example = seek_pages-Answer 4 1 meta_file fourth_level refl

page_there : seek_page2 header (pos 4) meta_file ≡ Run.ok 9192 meta_file
unfolding seek_page2 check_page_level index_in_level pointers_at seek_and_tell fread_pointers
    read_pointers system_call outcome
page_there = refl

seek_page2-apart_example : ◌≡◌ {A = ℕ} 4 4
seek_page2-apart_example =
    seek_page2-apart 4 4 meta_file 9192 meta_file meta_file meta_file-IsWellFormed page_there
      page_there (omega arith)

-- The pointers of the file, with something behind each page.
abbrev with_more : ℕ → ℕ → ℕ
with_more p i = if leb 1024 i then 77 else meta_file.pointers p i

with_more-agree : (p i : ℕ) → i < pointers_per_page → with_more p i ≡ meta_file.pointers p i
with_more-agree p i h = let e : leb 1024 i ≡ false = ground (arith, h) in rw e

seek_pages-AsIn_example :
    AsIn meta_file
      (with_pointers with_more meta_file)
      4
      1
      (seek_page (pos 4) (with_pointers with_more meta_file))
    × AsIn meta_file
        (with_pointers with_more meta_file)
        4
        1
        (seek_page2 header (pos 4) (with_pointers with_more meta_file))
seek_pages-AsIn_example = seek_pages-AsIn 4 1 meta_file with_more with_more-agree fourth_level refl
