-- ===== src/Pages/Growth.antt =====
-- What adding pages does to the paths: those that are complete lead where they led before, but for the
-- one whose page is new.
use hcfs.Base.{
  ℕ, ◌+◌, ◌<◌, ◌≡◌, ◌≢◌, ◌∙◌, inl, inr, refl, sym, ap, subst, List, [], ◌∷◌, ◌++◌, arith, ◌==◌,
  Bool-cases, ==_iff,
}
use hcfs.Pages.Tree.{
  IsTree, leads, linked_cells, linked_place, rev_onto, walk, walk-break, walk-nil, walk-step,
}
use hcfs.Pages.Levels.{Complete}
use hcfs.Pages.Paths.{not_on_the_way, rev_onto-eq, rev_onto-injective}

-- Two steps of a walk.
pub walk-append :
    (cells : ℕ → ℕ → ℕ) (p : ℕ) (xs ys : List ℕ)
    → walk cells p xs ≢ 0
    → walk cells p (xs ++ ys) ≡ walk cells (walk cells p xs) ys
walk-append cells p [] ys h = ap (λ q. walk cells q ys) (sym (walk-nil cells p))
walk-append cells p (x ∷ xs) ys h = elim (Bool-cases (cells p x == 0)) [
  | inl e ↦ absurd (h (walk-break cells p x xs ((==_iff _ _).0 e)))
  | inr e ↦
      let there : cells p x ≢ 0 = ground arith in
      let one = walk-step cells p x (cells p x) xs refl there in
      walk-step cells p x (cells p x) (xs ++ ys) refl there
      ∙ walk-append cells (cells p x) xs ys (subst (λ q. q ≢ 0) one h)
      ∙ ap (λ q. walk cells q ys) (sym one)
]

-- The page at `p`, to which the reverse of `r` leads from the header.
pub record At (cells : ℕ → ℕ → ℕ) (place : ℕ → List ℕ) (file_end p : ℕ) (r : List ℕ) : Type 0 where
  pub reached : walk cells 0 (rev_onto r []) ≡ p
  pub placed : place p ≡ r
  pub known : p < file_end
  pub not_header : p ≢ 0

pub At-walk :
    {cells : ℕ → ℕ → ℕ} {place : ℕ → List ℕ} {file_end p : ℕ} {r : List ℕ} (is : List ℕ)
    → At cells place file_end p r
    → walk cells 0 (rev_onto r is) ≡ walk cells p is
At-walk {cells} {place} {file_end} {p} {r} is a =
    ap (walk cells 0) (sym (rev_onto-eq r [] is))
    ∙ walk-append cells 0 (rev_onto r []) is (subst (λ q. q ≢ 0) (sym a.reached) a.not_header)
    ∙ ap (λ q. walk cells q is) a.reached

module _ (cells : ℕ → ℕ → ℕ) (file_end : ℕ) (place : ℕ → List ℕ) (p i : ℕ)
    (tree : IsTree cells file_end place) where
  -- Down to a page that is there.
  pub At-down :
      (r : List ℕ)
      → At cells place file_end p r
      → cells p i ≢ 0
      → At cells place file_end (cells p i) (i ∷ r)
  At-down r a there = record {
    reached =
        At-walk (i ∷ []) a
        ∙ walk-step cells p i (cells p i) [] refl there
        ∙ walk-nil cells (cells p i);
    placed = tree.linked p i there ∙ ap (λ l. i ∷ l) a.placed;
    known = tree.below p i;
    not_header = there;
  }

  module _ (known : p < file_end) (free : cells p i ≡ 0) where
    -- A page of pointers is added on the way to a complete path.
    pub link-found :
        (j : ℕ) (js other : List ℕ)
        → Complete (rev_onto (i ∷ place p) (j ∷ js))
        → Complete other
        → walk (linked_cells cells file_end place p i) 0 other ≡ walk cells 0 other
    link-found j js other way complete =
        elim (leads cells file_end place p i tree known free 0 other) [
          | inl same ↦ same
          | inr (a, b, c) ↦ absurd (
              not_on_the_way other (i ∷ place p) j js complete
                (ap (rev_onto other) (sym tree.root) ∙ c) way)
        ]

    -- A page of data is added at the end of the path `way`.
    pub link_last-found :
        (way other : List ℕ)
        → rev_onto (i ∷ place p) [] ≡ way
        → other ≢ way
        → walk (linked_cells cells file_end place p i) 0 other ≡ walk cells 0 other
    link_last-found way other e ne = elim (leads cells file_end place p i tree known free 0 other) [
      | inl same ↦ same
      | inr (a, b, c) ↦ absurd (
          ne (
            rev_onto-injective other way (i ∷ place p) (ap (rev_onto other) (sym tree.root) ∙ c) e))
    ]

    -- The page stays where it is, and the new one is below it.
    module _ (r : List ℕ) (size : ℕ) (a : At cells place file_end p r) where
      pub link-stays :
          At
            (linked_cells cells file_end place p i)
            (linked_place cells file_end place p i)
            (file_end + size)
            p
            r
      link-stays = record {
        reached = elim (leads cells file_end place p i tree known free 0 (rev_onto r [])) [
          | inl same ↦ same ∙ a.reached
          | inr (b, c, d) ↦ absurd (a.not_header (sym a.reached ∙ b))
        ];
        placed = ground (arith, a.placed);
        known = omega (arith, known);
        not_header = a.not_header;
      }

      pub link-At :
          0 < size
          → At
              (linked_cells cells file_end place p i)
              (linked_place cells file_end place p i)
              (file_end + size)
              file_end
              (i ∷ r)
      link-At more = record {
        reached =
            At-walk (i ∷ []) link-stays
            ∙ walk-step (linked_cells cells file_end place p i) p i file_end [] (ground arith)
                (omega (arith, tree.begun))
            ∙ walk-nil (linked_cells cells file_end place p i) file_end;
        placed = ground (arith, a.placed);
        known = omega arith;
        not_header = omega (arith, tree.begun);
      }
