-- ===== src/Pages/Tree.antt =====
-- The pointers of such a file as one table: `cells p i` is the i-th pointer of the page at `p`, and 0
-- where there is none. The header is the page at 0. A path is the list of the indices that are read.
use hcfs.Base.{
  ℕ, ◌+◌, ◌≤◌, ◌<◌, ◌≡◌, ◌≢◌, ◌⊎◌, ◌∙◌, inl, inr, refl, sym, subst, List, [], ◌∷◌, arith, ◌==◌,
  if◌then◌else◌, Bool-cases, ==_iff,
}
use hcfs.Base.Tables.{update}

-- The page that a path leads to from the page at `p`, and 0 where it breaks off.
unfoldable pub walk : (ℕ → ℕ → ℕ) → ℕ → List ℕ → ℕ
walk cells p [] = p
walk cells p (i ∷ is) = let rest = walk cells (cells p i) is in if cells p i == 0 then 0 else rest

-- `is`, reversed, before `r`.
abbrev pub rev_onto : List ℕ → List ℕ → List ℕ
rev_onto [] r = r
rev_onto (i ∷ is) r = rev_onto is (i ∷ r)

-- Each page has one place in the tree: `place p` is its path from the header, reversed.
pub record IsTree (cells : ℕ → ℕ → ℕ) (file_end : ℕ) (place : ℕ → List ℕ) : Type 0 where
  pub root : place 0 ≡ []
  pub begun : 0 < file_end
  pub linked : (p i : ℕ) → cells p i ≢ 0 → place (cells p i) ≡ i ∷ place p
  pub below : (p i : ℕ) → cells p i < file_end
  pub fresh : (p i : ℕ) → file_end ≤ p → cells p i ≡ 0

abbrev pub set_cell : (ℕ → ℕ → ℕ) → ℕ → ℕ → ℕ → ℕ → ℕ → ℕ
set_cell cells p i q = update cells p (update (cells p) i q)

pub walk-place :
    (cells : ℕ → ℕ → ℕ) (file_end : ℕ) (place : ℕ → List ℕ)
    → IsTree cells file_end place
    → (p : ℕ) (is : List ℕ) → walk cells p is ≢ 0
    → place (walk cells p is) ≡ rev_onto is (place p)
unfolding walk
walk-place cells e place tree p [] h = refl
walk-place cells e place tree p (i ∷ is) h = elim (Bool-cases (cells p i == 0)) [
  | inl none_there ↦ absurd (ground arith)
  | inr there ↦ ground (arith, walk-place cells e place tree (cells p i) is, tree.linked p i)
]

pub walk-nil : (cells : ℕ → ℕ → ℕ) (p : ℕ) → walk cells p [] ≡ p
unfolding walk
walk-nil cells p = refl

pub walk-break :
    (cells : ℕ → ℕ → ℕ) (p i : ℕ) (is : List ℕ) → cells p i ≡ 0 → walk cells p (i ∷ is) ≡ 0
unfolding walk
walk-break cells p i is h = ground arith

pub walk-step :
    (cells : ℕ → ℕ → ℕ) (p i q : ℕ) (is : List ℕ)
    → cells p i ≡ q
    → q ≢ 0
    → walk cells p (i ∷ is) ≡ walk cells q is
unfolding walk
walk-step cells p i q is h there = ground arith

-- The page that a call adds at `file_end` and makes the i-th of the page at `p`.
module _ (cells : ℕ → ℕ → ℕ) (file_end : ℕ) (place : ℕ → List ℕ) (p i : ℕ) where
  abbrev pub linked_cells : ℕ → ℕ → ℕ
  linked_cells = set_cell cells p i file_end

  abbrev pub linked_place : ℕ → List ℕ
  linked_place = update place file_end (i ∷ place p)

  module _ (tree : IsTree cells file_end place) (known : p < file_end) (free : cells p i ≡ 0) where
    linked_linked :
        (q j : ℕ) → linked_cells q j ≢ 0 → linked_place (linked_cells q j) ≡ j ∷ linked_place q
    linked_linked q j h =
        ground (arith, tree.linked q j, tree.below q j, tree.fresh q j, tree.fresh p i)

    pub link-IsTree : (size : ℕ) → 0 < size → IsTree linked_cells (file_end + size) linked_place
    link-IsTree size more = record {
      root = ground (arith, tree.root, tree.begun);
      begun = omega (arith, tree.begun);
      linked = linked_linked;
      below = λ q j. ground (arith, tree.below q j);
      fresh = λ q j behind. ground (arith, tree.fresh q j);
    }

    -- What a walk finds after it: what it found before, or the new page, at the place of this page.
    abbrev pub Found : ℕ → List ℕ → Type 0
    Found q is =
        (walk linked_cells q is ≡ walk cells q is)
        ⊎ ((walk cells q is ≡ 0)
            × (walk linked_cells q is ≡ file_end)
            × (rev_onto is (place q) ≡ i ∷ place p))

    Found-here : (is : List ℕ) → Found p (i ∷ is)
    Found-here [] = inr (
      walk-break cells p i [] free,
      walk-step linked_cells p i file_end [] (ground arith) (omega (arith, tree.begun))
          ∙ walk-nil linked_cells file_end,
      refl,
    )
    Found-here (j ∷ is) = inl (
        walk-step linked_cells p i file_end (j ∷ is) (ground arith) (omega (arith, tree.begun))
        ∙ walk-break linked_cells file_end j is (ground (arith, tree.fresh file_end j))
        ∙ sym (walk-break cells p i (j ∷ is) free))

    Found-below :
        (q j r : ℕ) (is : List ℕ)
        → cells q j ≡ r
        → linked_cells q j ≡ r
        → r ≢ 0
        → place r ≡ j ∷ place q
        → Found r is
        → Found q (j ∷ is)
    Found-below q j r is old new there up (inl same) = inl (
        walk-step linked_cells q j r is new there ∙ same ∙ sym (walk-step cells q j r is old there))
    Found-below q j r is old new there up (inr (a, b, c)) = inr (
      walk-step cells q j r is old there ∙ a,
      walk-step linked_cells q j r is new there ∙ b,
      subst (λ l. rev_onto is l ≡ i ∷ place p) up c,
    )

    pub leads : (q : ℕ) (is : List ℕ) → Found q is
    leads q [] = inl (walk-nil linked_cells q ∙ sym (walk-nil cells q))
    leads q (j ∷ is) = elim (Bool-cases (cells q j == 0)) [
      | inl none_there ↦ elim (Bool-cases (q == p)) [
        | inl same ↦ elim (Bool-cases (j == i)) [
          | inl same' ↦
              subst (λ a. Found a (j ∷ is)) (sym ((==_iff q p).0 same))
                (subst (λ a. Found p (a ∷ is)) (sym ((==_iff j i).0 same')) (Found-here is))
          | inr ne ↦ inl (
              walk-break linked_cells q j is (ground arith)
              ∙ sym (walk-break cells q j is (ground arith)))
        ]
        | inr ne ↦ inl (
            walk-break linked_cells q j is (ground arith)
            ∙ sym (walk-break cells q j is (ground arith)))
      ]
      | inr there ↦
          Found-below q j (cells q j) is refl (ground arith) (ground arith)
            (tree.linked q j (ground arith)) (leads (cells q j) is)
    ]
