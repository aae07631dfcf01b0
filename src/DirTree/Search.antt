-- ===== src/DirTree/Search.antt =====
-- The binary search in a page ends, and finds the name or its place.
use hcfs.Base.{
  ℕ, ◌+◌, ◌<◌, ◌≤◌, zero, suc, ◌≡◌, refl, Bool, false, Option, some, ltb, ◌==◌, arith, Bool-cases,
  inl, inr, sym, ltb→lt, lt→ltb, subst, ==_iff,
}
use hcfs.DirTree.{
  EntryName, DirEntry, Comparisons, compare_names, Sign, below, same, above, Place, found_at,
  insert_at, probe, search_loop, sign_at, dentry_binary_search,
}

-- The signs along a page: above up to some place, then at most one that is the same, then below.
pub record IsOrdered (cmp : ℕ → Sign) (num : ℕ) : Type 0 where
  pub above_left : (i j : ℕ) → i < j → j < num → cmp j ≡ above → cmp i ≡ above
  pub below_right : (i j : ℕ) → i < j → j < num → cmp i ≡ below → cmp j ≡ below

-- What a place says of the page.
abbrev pub Located : (ℕ → Sign) → ℕ → Place → Type 0
Located cmp num (found_at k) = (k < num) × (cmp k ≡ same)
Located cmp num (insert_at k) =
    (k ≤ num) × ((i : ℕ) → i < k → cmp i ≡ above) × ((i : ℕ) → k ≤ i → i < num → cmp i ≡ below)

abbrev pub Finds : (ℕ → Sign) → ℕ → Option Place → Type 0
Finds cmp num o = (p : Place) × (o ≡ some p) × Located cmp num p

module _ (cmp : ℕ → Sign) (num : ℕ) (ordered : IsOrdered cmp num) where
  -- The entries left of `lo` are above, those from `hi` on below.
  record Between (lo hi : ℕ) : Type 0 where
    order : lo ≤ hi
    inside : hi ≤ num
    left : (i : ℕ) → i < lo → cmp i ≡ above
    right : (i : ℕ) → hi ≤ i → i < num → cmp i ≡ below

  probe_inside : (lo hi : ℕ) → lo < hi → hi ≤ num → (lo ≤ probe num lo hi) × (probe num lo hi < hi)
  probe_inside lo hi lt le = (ground arith, ground arith)

  ended : (lo hi : ℕ) → Between lo hi → hi ≤ lo → Finds cmp num (some (insert_at lo))
  ended lo hi b le = (
    insert_at lo,
    refl,
    (omega (arith, b.order, b.inside), b.left, λ i le' lt. b.right i (omega (arith, le)) lt),
  )

  to_left : (lo hi k : ℕ) → Between lo hi → lo ≤ k → k < hi → cmp k ≡ below → Between lo k
  to_left lo hi k b le lt e = record {
    order = le;
    inside = omega (arith, b.inside);
    left = b.left;
    right = λ i le' lt'. elim (Bool-cases (i == k)) [
      | inl is_k ↦ subst (λ x. cmp x ≡ below) (sym ((==_iff i k).0 is_k)) e
      | inr other ↦ ordered.below_right k i (ground arith) lt' e
    ];
  }

  to_right : (lo hi k : ℕ) → Between lo hi → lo ≤ k → k < hi → cmp k ≡ above → Between (k + 1) hi
  to_right lo hi k b le lt e = record {
    order = omega arith;
    inside = b.inside;
    left = λ i lt'. elim (Bool-cases (i == k)) [
      | inl is_k ↦ subst (λ x. cmp x ≡ above) (sym ((==_iff i k).0 is_k)) e
      | inr other ↦ ordered.above_left i k (ground arith) (omega (arith, b.inside)) e
    ];
    right = b.right;
  }

  -- One round: the entry that is compared, and the two ways to go on.
  round :
      (fuel lo hi : ℕ) (sign : Sign)
      → Between lo hi
      → lo < hi
      → cmp (probe num lo hi) ≡ sign
      → (cmp (probe num lo hi) ≡ below
          → Finds cmp num (search_loop fuel cmp num lo (probe num lo hi)))
      → (cmp (probe num lo hi) ≡ above
          → Finds cmp num (search_loop fuel cmp num (probe num lo hi + 1) hi))
      → Finds cmp num (search_loop (suc fuel) cmp num lo hi)
  unfolding search_loop
  round fuel lo hi same b lt e left right =
      rw (search_loop, lt→ltb lo hi lt, e)
        (
          found_at (probe num lo hi),
          refl,
          (omega (arith, b.inside, (probe_inside lo hi lt b.inside).1), e),
        )
  round fuel lo hi below b lt e left right = rw (search_loop, lt→ltb lo hi lt, e) (left e)
  round fuel lo hi above b lt e left right = rw (search_loop, lt→ltb lo hi lt, e) (right e)

  stop :
      (fuel lo hi : ℕ)
      → Between lo hi
      → ltb lo hi ≡ false
      → Finds cmp num (search_loop fuel cmp num lo hi)
  unfolding search_loop
  stop zero lo hi b e = rw (search_loop, e) (ended lo hi b (ground arith))
  stop (suc fuel) lo hi b e = rw (search_loop, e) (ended lo hi b (ground arith))

  search_loop-Finds :
      (fuel lo hi : ℕ)
      → Between lo hi
      → hi ≤ lo + fuel
      → Finds cmp num (search_loop fuel cmp num lo hi)
  search_loop-Finds zero lo hi b h = stop zero lo hi b (ground arith)
  search_loop-Finds (suc fuel) lo hi b h = elim (Bool-cases (ltb lo hi)) [
    | inr e ↦ stop (suc fuel) lo hi b e
    | inl e ↦
        let lt : lo < hi = ltb→lt lo hi e in
        let (le, less) = probe_inside lo hi lt b.inside in
        round fuel lo hi (cmp (probe num lo hi)) b lt refl
          (λ s. search_loop-Finds fuel lo _ (to_left lo hi _ b le less s) (omega (arith, h, less)))
          (λ s. search_loop-Finds fuel _ hi (to_right lo hi _ b le less s) (omega (arith, h, le)))
  ]

  pub whole_page-Finds : Finds cmp num (search_loop num cmp num 0 num)
  whole_page-Finds =
      search_loop-Finds num 0 num
        (record {
          order = omega arith;
          inside = omega arith;
          left = λ i lt. absurd (omega arith);
          right = λ i le lt. absurd (omega arith);
        })
        (omega arith)

-- In a page whose entries are ordered for the name, the binary search ends. It returns the index of
-- an entry with the name, or a place such that the name comes behind all entries before it and
-- before all others.
pub dentry_binary_search-Finds :
    (c : Comparisons) (entries : ℕ → DirEntry) (num : ℕ) (name : EntryName) (is_external : Bool)
    → IsOrdered (sign_at (compare_names c is_external) name entries) num
    → Finds
        (sign_at (compare_names c is_external) name entries)
        num
        (dentry_binary_search c entries num name is_external)
unfolding dentry_binary_search
dentry_binary_search-Finds c entries num name is_external ordered = elim (Bool-cases (ltb num 1)) [
  | inl e ↦
      rw (dentry_binary_search, e)
        (
          insert_at 0,
          refl,
          (omega arith, λ i lt. absurd (omega arith), λ i le lt. absurd (ground arith)),
        )
  | inr e ↦ rw (dentry_binary_search, e) (whole_page-Finds _ num ordered)
]
