-- ===== src/DirTree.antt =====
-- The B-tree of directory entries (src/HCFS/dir_entry_btree.c, meta.h): the search in a page and in
-- the tree. `strcmp` and `strcasecmp` are parameters, as is the meta file, from which a page is read
-- at a position or an error is returned.
pub mod Search
pub mod Tree
mod Tests
use hcfs.Base.{
  ℕ, ◌+◌, ◌-◌, ◌/◌, zero, suc, Bool, true, false, List, Option, none, some, Result, ok, err, enoent,
  ltb, leb, ◌==◌, if◌then◌else◌,
}
use hcfs.Base.Int.{ℤ, pos, negsuc}

abbrev pub EntryName : Type 0
EntryName = List ℕ

-- `DIR_ENTRY`.
pub record DirEntry : Type 0 where
  pub d_ino : ℕ
  pub d_name : EntryName
  pub d_type : ℕ

-- `DIR_ENTRY_PAGE`, without the links of the lists of pages.
pub record DirEntryPage : Type 0 where
  pub num_entries : ℕ
  pub dir_entries : ℕ → DirEntry
  pub this_page_pos : ℕ
  pub child_page_pos : ℕ → ℕ
  pub parent_page_pos : ℕ

-- The two comparisons of strings.
pub record Comparisons : Type 0 where
  pub strcmp : EntryName → EntryName → ℤ
  pub strcasecmp : EntryName → EntryName → ℤ

abbrev pub compare_names : Comparisons → (is_external : Bool) → EntryName → EntryName → ℤ
compare_names c true = c.strcasecmp
compare_names c false = c.strcmp

-- What the code asks of the result of a comparison.
pub data Sign : Type 0 where
  below same above : Sign

abbrev pub sign_of : ℤ → Sign
sign_of (pos zero) = same
sign_of (pos (suc n)) = above
sign_of (negsuc n) = below

-- The index in the page, or where the name would be inserted.
pub data Place : Type 0 where
  found_at : ℕ → Place
  insert_at : ℕ → Place

-- `compare_entry`, from `start_index` and `end_index`.
abbrev pub middle : (start_index end_index : ℕ) → ℕ
middle start_index end_index =
    if end_index == start_index + 1 then start_index else (end_index + start_index) / 2

abbrev pub probe : (num_entries start_index end_index : ℕ) → ℕ
probe num_entries start_index end_index =
    if leb num_entries (middle start_index end_index)
    then num_entries - 1
    else middle start_index end_index

-- The loop; `none` when the fuel is used up. `cmp` is the sign of the comparison with the name.
unfoldable pub search_loop : ℕ → (ℕ → Sign) → (num_entries start_index end_index : ℕ) → Option Place
search_loop zero cmp num_entries start_index end_index =
    if ltb start_index end_index then none else some (insert_at start_index)
search_loop (suc fuel) cmp num_entries start_index end_index = elim (ltb start_index end_index) [
  | false ↦ some (insert_at start_index)
  | true ↦
      let entry : ℕ = probe num_entries start_index end_index in
      elim (cmp entry) [
        | same ↦ some (found_at entry)
        | below ↦ search_loop fuel cmp num_entries start_index entry
        | above ↦ search_loop fuel cmp num_entries (entry + 1) end_index
      ]
]

-- The sign of the comparison of a name with an entry of an array.
abbrev pub sign_at : (EntryName → EntryName → ℤ) → EntryName → (ℕ → DirEntry) → ℕ → Sign
sign_at cmp name entries i = sign_of (cmp name (entries i).d_name)

unfoldable pub dentry_binary_search :
    Comparisons
    → (ℕ → DirEntry)
    → (num_entries : ℕ) → EntryName
    → (is_external : Bool) → Option Place
unfolding search_loop
dentry_binary_search c entries num_entries name is_external =
    if ltb num_entries 1
    then some (insert_at 0)
    else search_loop num_entries (sign_at (compare_names c is_external) name entries) num_entries 0
        num_entries

-- The meta file.
abbrev pub PageFile : Type 0
PageFile = ℕ → Result DirEntryPage

-- The index and the page; `none` when the fuel, for the height of the tree, is used up.
unfoldable pub search_dir_entry_btree :
    ℕ
    → Comparisons
    → PageFile
    → EntryName
    → DirEntryPage
    → (is_external : Bool) → Option (Result (ℕ × DirEntryPage))
unfolding dentry_binary_search
search_dir_entry_btree zero c file name page is_external = none
search_dir_entry_btree (suc fuel) c file name page is_external =
    elim (dentry_binary_search c page.dir_entries page.num_entries name is_external) [
      | none ↦ none
      | some (found_at i) ↦ some (ok (i, page))
      | some (insert_at i) ↦ elim (page.child_page_pos i == 0) [
        | true ↦ some (err enoent)
        | false ↦ elim (file (page.child_page_pos i)) [
          | err e ↦ some (err e)
          | ok child ↦ search_dir_entry_btree fuel c file name child is_external
        ]
      ]
    ]
