-- ===== src/DirTree/Tests.antt =====
-- A page of three names.
use hcfs.Base.{ℕ, ◌<◌, ◌≡◌, false, [], ◌∷◌, some, eio, Result, err, ltb, ◌==◌, if◌then◌else◌, arith}
use hcfs.Base.Int.{ℤ, pos, negsuc}
use hcfs.DirTree.{
  EntryName, DirEntry, DirEntryPage, PageFile, Comparisons, compare_names, below, above, sign_of,
  sign_at, dentry_binary_search, search_dir_entry_btree,
}
use hcfs.DirTree.Search.{IsOrdered, Finds, dentry_binary_search-Finds}
use hcfs.DirTree.Tree.{IsOrder, IsTree, IsAnswer, search_dir_entry_btree-IsAnswer}

-- Names by their first character.
abbrev first : EntryName → ℕ
first [] = 0
first (x ∷ xs) = x

abbrev compare_first : ℕ → ℕ → ℤ
compare_first a b = if a == b then pos 0 else if ltb a b then negsuc 0 else pos 1

abbrev by_first : Comparisons
by_first = record {
  strcmp = λ a b. compare_first (first a) (first b);
  strcasecmp = λ a b. compare_first (first a) (first b);
}

below_below :
    (x a b : ℕ)
    → sign_of (compare_first x a) ≡ below
    → sign_of (compare_first a b) ≡ below
    → sign_of (compare_first x b) ≡ below
below_below x a b h k = ground arith

above_above :
    (x a b : ℕ)
    → sign_of (compare_first x b) ≡ above
    → sign_of (compare_first a b) ≡ below
    → sign_of (compare_first x a) ≡ above
above_above x a b h k = ground arith

by_first-IsOrder : IsOrder (compare_names by_first false)
by_first-IsOrder = record {
  below_below = λ x a b. below_below (first x) (first a) (first b);
  above_above = λ x a b. above_above (first x) (first a) (first b);
}

abbrev entry : ℕ → DirEntry
entry c = record { d_ino = c; d_name = c ∷ []; d_type = 0 }

-- The entries have the names 10, 20 and 30.
abbrev page : DirEntryPage
page = record {
  num_entries = 3;
  dir_entries = λ i. entry (if i == 0 then 10 else if i == 1 then 20 else 30);
  this_page_pos = 4096;
  child_page_pos = λ i. 0;
  parent_page_pos = 0;
}

abbrev no_file : PageFile
no_file i = err eio

page_order :
    (x i j : ℕ)
    → i < j
    → j < 3
    → sign_of (
        compare_first
          (if i == 0 then 10 else if i == 1 then 20 else 30)
          (if j == 0 then 10 else if j == 1 then 20 else 30))
      ≡ below
page_order x i j lt lt' = ground arith

page-IsTree : IsTree no_file (compare_names by_first false) 1 page
page-IsTree = (λ i j lt lt'. page_order 0 i j lt lt', λ k le nz. cc)

search_dir_entry_btree-IsAnswer_example :
    (r : Result (ℕ × DirEntryPage)) × (search_dir_entry_btree 1 by_first no_file
        (20 ∷ [])
        page
        false
      ≡ some r)
    × IsAnswer no_file (compare_names by_first false) (20 ∷ []) page r
search_dir_entry_btree-IsAnswer_example =
    search_dir_entry_btree-IsAnswer by_first false no_file (20 ∷ []) 1 page by_first-IsOrder
      page-IsTree

page-IsOrdered : IsOrdered (sign_at (compare_names by_first false) (25 ∷ []) page.dir_entries) 3
page-IsOrdered = record {
  above_left = λ i j lt lt' e. ground arith;
  below_right = λ i j lt lt' e. ground arith;
}

dentry_binary_search-Finds_example :
    Finds
      (sign_at (compare_names by_first false) (25 ∷ []) page.dir_entries)
      3
      (dentry_binary_search by_first page.dir_entries 3 (25 ∷ []) false)
dentry_binary_search-Finds_example =
    dentry_binary_search-Finds by_first page.dir_entries 3 (25 ∷ []) false page-IsOrdered
