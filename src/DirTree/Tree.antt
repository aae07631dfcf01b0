-- ===== src/DirTree/Tree.antt =====
-- The search in the tree finds an entry exactly when the tree holds it.
use hcfs.Base.{
  ℕ, ◌-◌, ◌<◌, ◌≤◌, zero, suc, ◌≡◌, ◌≢◌, refl, Bool, false, some, enoent, Result, ok, err, ltb,
  ◌==◌, arith, Bool-cases, inl, inr, ◌⊎◌, sym, ◌∙◌, subst, ==_iff, ltb→lt,
}
use hcfs.Base.Int.{ℤ}
use hcfs.DirTree.{
  EntryName, DirEntry, DirEntryPage, PageFile, Comparisons, compare_names, Sign, below, same, above,
  sign_of, Place, found_at, insert_at, sign_at, dentry_binary_search, search_dir_entry_btree,
}
use hcfs.DirTree.Search.{IsOrdered, Located, dentry_binary_search-Finds}

-- A comparison of strings orders them.
pub record IsOrder (cmp : EntryName → EntryName → ℤ) : Type 0 where
  pub below_below :
      (x a b : EntryName)
      → sign_of (cmp x a) ≡ below
      → sign_of (cmp a b) ≡ below
      → sign_of (cmp x b) ≡ below
  pub above_above :
      (x a b : EntryName)
      → sign_of (cmp x b) ≡ above
      → sign_of (cmp a b) ≡ below
      → sign_of (cmp x a) ≡ above

-- The entries of a page and of the pages below it.
pub data Holds (file : PageFile) : DirEntryPage → DirEntry → Type 0 where
  here : {p : DirEntryPage} (k : ℕ) → k < p.num_entries → Holds file p (p.dir_entries k)
  deeper :
      {p q : DirEntryPage} {e : DirEntry} (k : ℕ)
      → k ≤ p.num_entries
      → (p.child_page_pos k == 0) ≡ false
      → file (p.child_page_pos k) ≡ ok q
      → Holds file q e
      → Holds file p e

module _ (file : PageFile) (cmp : EntryName → EntryName → ℤ) where
  abbrev IsBelow : DirEntry → DirEntry → Type 0
  IsBelow d e = sign_of (cmp d.d_name e.d_name) ≡ below

  abbrev IsSorted : DirEntryPage → Type 0
  IsSorted p = (i j : ℕ) → i < j → j < p.num_entries → IsBelow (p.dir_entries i) (p.dir_entries j)

  -- What the page `q` holds lies at the place `k` of `p`.
  abbrev IsAt : DirEntryPage → ℕ → DirEntryPage → Type 0
  IsAt p k q =
      (e : DirEntry)
      → Holds file q e
      → ((i : ℕ) → i < k → IsBelow (p.dir_entries i) e)
        × ((i : ℕ) → k ≤ i → i < p.num_entries → IsBelow e (p.dir_entries i))

  -- A tree of height at most `h`: its pages can be read and are sorted, and the pages below an
  -- entry's place hold what belongs there.
  abbrev pub IsTree : ℕ → DirEntryPage → Type 0
  IsTree zero p = ⊥
  IsTree (suc h) p =
      IsSorted p
      × ((k : ℕ)
          → k ≤ p.num_entries
          → (p.child_page_pos k == 0) ≡ false
          → (q : DirEntryPage) × (file (p.child_page_pos k) ≡ ok q) × IsTree h q × IsAt p k q)

  -- What the result says of the entries that a page holds.
  abbrev pub IsAnswer : EntryName → DirEntryPage → Result (ℕ × DirEntryPage) → Type 0
  IsAnswer x p (ok (k, q)) =
      (k < q.num_entries) × (sign_at cmp x q.dir_entries k ≡ same) × Holds file p (q.dir_entries k)
  IsAnswer x p (err e) =
      (e ≡ enoent) × ((d : DirEntry) → Holds file p d → sign_of (cmp x d.d_name) ≢ same)

  module _ (order : IsOrder cmp) (x : EntryName) where
    abbrev sign : DirEntry → Sign
    sign d = sign_of (cmp x d.d_name)

    sorted-IsOrdered :
        (p : DirEntryPage) → IsSorted p → IsOrdered (sign_at cmp x p.dir_entries) p.num_entries
    sorted-IsOrdered p sorted = record {
      above_left = λ i j lt in_page e. order.above_above _ _ _ e (sorted i j lt in_page);
      below_right = λ i j lt in_page e. order.below_below _ _ _ e (sorted i j lt in_page);
    }

    not_same : (d : DirEntry) → (sign d ≡ above) ⊎ (sign d ≡ below) → sign d ≢ same
    not_same d (inl e) s = cc
    not_same d (inr e) s = cc

    -- Of the pages below, only the one at the name's place may hold it.
    child_absent :
        (h k : ℕ) (p q : DirEntryPage) (d : DirEntry)
        → Located (sign_at cmp x p.dir_entries) p.num_entries (insert_at k)
        → ((q : DirEntryPage)
            → (p.child_page_pos k == 0) ≡ false
            → file (p.child_page_pos k) ≡ ok q
            → Holds file q d
            → sign d ≢ same)
        → (i : ℕ) → i ≤ p.num_entries
        → (p.child_page_pos i == 0) ≡ false
        → file (p.child_page_pos i) ≡ ok q
        → Holds file q d
        → IsAt p i q
        → sign d ≢ same
    child_absent h k p q d loc only i le nz read held place = elim (Bool-cases (ltb i k)) [
      | inl e ↦ not_same d (
          inl (
            order.above_above x d.d_name (p.dir_entries i).d_name (loc.1 i (ltb→lt i k e))
              ((place d held).1 i (omega arith) (omega (arith, loc.0, ltb→lt i k e)))))
      | inr e ↦ elim (Bool-cases (i == k)) [
        | inl at_k ↦
            let i_eq : i ≡ k = (==_iff i k).0 at_k in
            only q (subst (λ j. (p.child_page_pos j == 0) ≡ false) i_eq nz)
              (subst (λ j. file (p.child_page_pos j) ≡ ok q) i_eq read) held
        | inr other ↦ not_same d (
            inr (
              order.below_below x (p.dir_entries (i - 1)).d_name d.d_name
                (loc.2 (i - 1) (ground arith) (ground arith))
                ((place d held).0 (i - 1) (ground arith))))
      ]
    ]

    same_page : (q q' : DirEntryPage) → ◌≡◌ {A = Result DirEntryPage} (ok q) (ok q') → q ≡ q'
    same_page q q' e = cc

    -- A name whose place in the page is `k` is not held, if it is not below that place.
    absent :
        (h k : ℕ) (p : DirEntryPage) (d : DirEntry)
        → IsTree (suc h) p
        → Located (sign_at cmp x p.dir_entries) p.num_entries (insert_at k)
        → ((q : DirEntryPage)
            → (p.child_page_pos k == 0) ≡ false
            → file (p.child_page_pos k) ≡ ok q
            → Holds file q d
            → sign d ≢ same)
        → Holds file p d
        → sign d ≢ same
    absent h k p d tree loc only (here i lt) = elim (Bool-cases (ltb i k)) [
      | inl e ↦ not_same (p.dir_entries i) (inl (loc.1 i (ltb→lt i k e)))
      | inr e ↦ not_same (p.dir_entries i) (inr (loc.2 i (ground arith) lt))
    ]
    absent h k p d tree loc only (deeper {q = q} i le nz read held) =
        let (q', read', sub, place) = tree.1 i le nz in
        child_absent h k p q d loc only i le nz read held
          (subst (IsAt p i) (same_page q' q (sym read' ∙ read)) place)

    abbrev Absent : DirEntryPage → Type 0
    Absent p = (d : DirEntry) → Holds file p d → sign d ≢ same

    -- What a page below holds at the name's place, the page holds.
    lift-IsAnswer :
        (h k : ℕ) (p q : DirEntryPage) (r : Result (ℕ × DirEntryPage))
        → IsTree (suc h) p
        → Located (sign_at cmp x p.dir_entries) p.num_entries (insert_at k)
        → (p.child_page_pos k == 0) ≡ false
        → file (p.child_page_pos k) ≡ ok q
        → IsAnswer x q r
        → IsAnswer x p r
    lift-IsAnswer h k p q (ok (i, found)) tree loc nz read answer =
        (answer.0, answer.1, deeper k loc.0 nz read answer.2)
    lift-IsAnswer h k p q (err e) tree loc nz read answer = (
      answer.0,
      λ d. absent h k p d tree loc (λ q' nz' read' held.
          answer.1 d (subst (λ y. Holds file y d) (same_page q' q (sym read' ∙ read)) held)),
    )

    search_from :
        (h : ℕ) (p : DirEntryPage) (c : Comparisons) (is_external : Bool) (place : Place)
        → dentry_binary_search c p.dir_entries p.num_entries x is_external ≡ some place
        → Located (sign_at cmp x p.dir_entries) p.num_entries place
        → IsTree (suc h) p
        → ((q : DirEntryPage)
            → IsTree h q
            → (r : Result (ℕ × DirEntryPage)) × (search_dir_entry_btree h c file x q is_external
                ≡ some r)
              × IsAnswer x q r)
        → (r : Result (ℕ × DirEntryPage)) × (search_dir_entry_btree (suc h) c file x p is_external
            ≡ some r)
          × IsAnswer x p r
    unfolding search_dir_entry_btree
    search_from h p c is_external (found_at k) e loc tree later =
        (ok (k, p), rw (search_dir_entry_btree, e), (loc.0, loc.1, here k loc.0))
    search_from h p c is_external (insert_at k) e loc tree later =
        elim (Bool-cases (p.child_page_pos k == 0)) [
          | inl leaf ↦ (
            err enoent,
            rw (search_dir_entry_btree, e) (rw leaf),
            (refl, λ d. absent h k p d tree loc (λ q nz read held. cc)),
          )
          | inr nz ↦
              let (q, read, sub, place) = tree.1 k loc.0 nz in
              let (r, ran, answer) = later q sub in
              (
                r,
                rw (search_dir_entry_btree, e) (rw nz (rw (read, ran))),
                lift-IsAnswer h k p q r tree loc nz read answer,
              )
        ]

-- In a tree of directory entries of height at most `h`, whose pages can be read, for a comparison
-- that orders names: the search ends. It returns an index and a page in which the entry has the name
-- and is held by the tree, or ENOENT, and then the tree holds no entry with the name.
pub search_dir_entry_btree-IsAnswer :
    (c : Comparisons) (is_external : Bool) (file : PageFile) (x : EntryName) (h : ℕ)
    (p : DirEntryPage)
    → IsOrder (compare_names c is_external)
    → IsTree file (compare_names c is_external) h p
    → (r : Result (ℕ × DirEntryPage)) × (search_dir_entry_btree h c file x p is_external ≡ some r)
      × IsAnswer file (compare_names c is_external) x p r
search_dir_entry_btree-IsAnswer c is_external file x zero p order tree = absurd tree
search_dir_entry_btree-IsAnswer c is_external file x (suc h) p order tree =
    let cmp : EntryName → EntryName → ℤ = compare_names c is_external in
    let (place, e, loc) =
      dentry_binary_search-Finds c p.dir_entries p.num_entries x is_external
        (sorted-IsOrdered file cmp order x p tree.0) in
    search_from file cmp order x h p c is_external place e loc tree
      (λ q sub. search_dir_entry_btree-IsAnswer c is_external file x h q order sub)
