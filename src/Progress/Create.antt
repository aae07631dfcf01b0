-- ===== src/Progress/Create.antt =====
-- The creation of a status page, call by call: the complete paths lead where they led, and the new
-- page is on its path.
use hcfs.Pages.Failure.{Consumed-refl, Consumed-thrice, Consumed-twice}
use hcfs.Base.{
  ℕ, ◌<◌, ◌≡◌, ◌≢◌, ◌∙◌, refl, sym, ap, subst, List, [], ◌∷◌, arith, ◌==◌, ==_iff, inl, inr,
  if◌then◌else◌, Bool-cases, true, zero, suc, ◌/◌, ◌%◌,
}
use mathlib.Core.Path.{fun_ext}
use hcfs.Base.Tables.{update}
use hcfs.Pages.File.{cells, end_after, later, no_pointers, pointer_page_size}
use hcfs.Pages.Tree.{linked_cells, linked_place, rev_onto, walk-break, walk-nil, walk-step}
use hcfs.Pages.Levels.{Complete, digits, longpow}
use hcfs.Pages.Growth.{At, At-down, At-walk}
use hcfs.Pages.Kept.{
  Kept, Kept-trans, Lost, Lost-trans, Tree, end_after-le, end_after-new, later-Kept, later-Lost,
  later-Tree, linked-At, linked-Kept, linked-Tree, unlinked-Kept, unlinked-Tree, zeroed,
}
use hcfs.Pages.Created.{Created, Kept-Created, found-Created, linked-Created}
use hcfs.Pages.Ends.{
  Ends, Ends-map, read_pointers-Ends, seek_end-Ends, then-Ends, write_page-Ends,
  write_pointers-Ends,
}
use hcfs.Progress.State.{ProgressFile, slot, status_page_size, zero_page}
use hcfs.Progress.Pages.{create_below, next_pointers, status_page_at}

-- A page of pointers at the end of the path with the reverse `r`, with what was done to get there.
pub record Below (s s' : ProgressFile) (q : ℕ) (r : List ℕ) : Type 0 where
  pub place : ℕ → List ℕ
  pub tree : Tree slot s' place
  pub position : At (cells slot s') place s'.file_end q r
  pub kept : Kept slot s s'

pub cells_page : (s : ProgressFile) (p i : ℕ) → p ≢ 0 → cells slot s p i ≡ s.pointers p i
unfolding cells
cells_page s p i h = ground arith

pub Kept-refl : (s : ProgressFile) → Kept slot s s
Kept-refl s = unlinked-Kept slot s s refl (omega arith) (λ p h. refl) (Consumed-refl s.outcomes)

module _ (s : ProgressFile) (place : ℕ → List ℕ) (tree : Tree slot s place) where
  -- The state with a new page of zero pointers, after one more call and the one that adds the page.
  abbrev pub with_zeros : ProgressFile
  with_zeros = record (later (later s)) {
    pointers = update s.pointers s.file_end no_pointers;
    file_end = end_after s.file_end pointer_page_size s.file_end;
  }

  pub zeros_cells : cells slot with_zeros ≡ cells slot s
  unfolding cells
  zeros_cells = ap (λ f p i. if p == 0 then slot s.header i else f p i) (zeroed slot s place tree)

  pub zeros-Kept : Kept slot s with_zeros
  zeros-Kept =
      unlinked-Kept slot s with_zeros zeros_cells (end_after-le s.file_end 8192 s.file_end)
        (λ p h. refl) (Consumed-twice s.outcomes)

  pub zeros-Tree : Tree slot with_zeros place
  zeros-Tree =
      unlinked-Tree slot s with_zeros place zeros_cells (end_after-le s.file_end 8192 s.file_end)
        tree

  -- The state with a new status page, after one more call and the one that adds the page.
  abbrev pub with_status_page : ProgressFile
  with_status_page = record (later (later s)) {
    pages = update s.pages s.file_end zero_page;
    file_end = end_after s.file_end status_page_size s.file_end;
  }

  pub status-Kept : Kept slot s with_status_page
  unfolding cells
  status-Kept =
      unlinked-Kept slot s with_status_page refl (end_after-le s.file_end 14400 s.file_end)
        (λ q h. ground arith) (Consumed-twice s.outcomes)

  pub status-Tree : Tree slot with_status_page place
  unfolding cells
  status-Tree =
      unlinked-Tree slot s with_status_page place refl (end_after-le s.file_end 14400 s.file_end)
        tree

  module _ (p i : ℕ) (r : List ℕ) (at_p : At (cells slot s) place s.file_end p r) where
    abbrev with_pointers : ProgressFile
    with_pointers = record (later with_zeros) {
      pointers = update with_zeros.pointers p (update (s.pointers p) i s.file_end);
      file_end = end_after p pointer_page_size with_zeros.file_end;
    }

    pointers_cells : cells slot with_pointers ≡ linked_cells (cells slot s) s.file_end place p i
    unfolding cells
    pointers_cells =
        fun_ext λ q. fun_ext λ k. ground (arith, tree.fresh q k, tree.begun, at_p.not_header)

    longer_pointers : s.file_end < with_pointers.file_end
    longer_pointers = omega (
      arith,
      end_after-new s.file_end 8192 (omega arith),
      end_after-le p 8192 with_zeros.file_end,
    )

    free : (s.pointers p i == 0) ≡ true → cells slot s p i ≡ 0
    free e = cells_page s p i at_p.not_header ∙ (==_iff _ _).0 e

    pub next_pointers-Ends :
        (j : ℕ) (js : List ℕ)
        → Complete (rev_onto (i ∷ r) (j ∷ js))
        → Ends
            (λ q s'. Below s s' q (i ∷ r))
            (λ s'. Lost slot s s')
            (next_pointers p (s.pointers p) i s)
    unfolding next_pointers
    next_pointers-Ends j js way = elim (Bool-cases (s.pointers p i == 0)) [
      | inl e ↦ rw e (
          seek_end-Ends (λ q s'. Below s s' q (i ∷ r)) (λ s'. Lost slot s s') s
            (later-Lost slot s s place tree (Kept-refl s)) _
            (write_pointers-Ends _ _ (later s)
              (later-Lost slot s (later s) place (later-Tree slot s place tree) (later-Kept slot s))
              s.file_end no_pointers _
              (write_pointers-Ends _ _ with_zeros
                (later-Lost slot s with_zeros place zeros-Tree zeros-Kept) p
                (update (s.pointers p) i s.file_end) _
                (record {
                  place = linked_place (cells slot s) s.file_end place p i;
                  tree =
                      linked-Tree slot s with_pointers place p i tree at_p.known (free e)
                        pointers_cells longer_pointers;
                  position =
                      linked-At slot s with_pointers place p i tree at_p.known (free e)
                        pointers_cells longer_pointers r at_p;
                  kept =
                      linked-Kept slot s with_pointers place p i tree at_p.known (free e)
                        pointers_cells longer_pointers j js
                        (subst (λ l. Complete (rev_onto (i ∷ l) (j ∷ js))) (sym at_p.placed) way)
                        (λ q h. refl) (Consumed-thrice s.outcomes);
                }))))
      | inr e ↦ rw e (record {
        place = place;
        tree = tree;
        position =
            subst (λ q. At (cells slot s) place s.file_end q (i ∷ r))
              (cells_page s p i at_p.not_header)
              (At-down (cells slot s) s.file_end place p i tree r at_p
                (λ h. absurd (ground (arith, h, cells_page s p i at_p.not_header))));
        kept = Kept-refl s;
      })
    ]

    abbrev with_link : ProgressFile
    with_link = record (later with_status_page) {
      pointers = update s.pointers p (update (s.pointers p) i s.file_end);
      file_end = end_after p pointer_page_size with_status_page.file_end;
    }

    link_cells : cells slot with_link ≡ linked_cells (cells slot s) s.file_end place p i
    unfolding cells
    link_cells = fun_ext λ q. fun_ext λ k. ground (arith, at_p.not_header)

    longer_link : s.file_end < with_link.file_end
    longer_link = omega (
      arith,
      end_after-new s.file_end 14400 (omega arith),
      end_after-le p 8192 with_status_page.file_end,
    )

    pub status_page_at-Ends :
        Ends
          (λ q s'. Created slot zero_page (rev_onto r (i ∷ [])) s s' q)
          (λ s'. Lost slot s s')
          (status_page_at p (s.pointers p) i s)
    unfolding status_page_at
    status_page_at-Ends = elim (Bool-cases (s.pointers p i == 0)) [
      | inl e ↦ rw e (
          seek_end-Ends _ _ s (later-Lost slot s s place tree (Kept-refl s)) _ (
            write_page-Ends _ _ (later s)
              (later-Lost slot s (later s) place (later-Tree slot s place tree) (later-Kept slot s))
              status_page_size s.file_end zero_page _
              (write_pointers-Ends _ _ with_status_page
                (later-Lost slot s with_status_page place status-Tree status-Kept) p
                (update (s.pointers p) i s.file_end) _
                (linked-Created slot zero_page s with_link place p i tree at_p.known (free e)
                  link_cells longer_link (rev_onto r (i ∷ []))
                  (ap (λ l. rev_onto (i ∷ l) []) at_p.placed)
                  (At-walk (i ∷ []) at_p ∙ walk-break (cells slot s) p i [] (free e))
                  (linked-At slot s with_link place p i tree at_p.known (free e) link_cells
                    longer_link r at_p).reached
                  (λ q h. ground arith) (ground arith) (Consumed-thrice s.outcomes)))))
      | inr e ↦ rw e (
          found-Created slot zero_page _ s place (s.pointers p i) tree
            (At-walk (i ∷ []) at_p
              ∙ walk-step (cells slot s) p i (s.pointers p i) [] (cells_page s p i at_p.not_header)
                  (λ h. ground arith)
              ∙ walk-nil (cells slot s) (s.pointers p i))
            (λ h. ground arith))
    ]

pub digits-cons : (c a : ℕ) → (j : ℕ) × (js : List ℕ) × (digits c a ≡ j ∷ js)
unfolding digits
digits-cons zero a = (a, [], refl)
digits-cons (suc c) a = (_, _, refl)

pub create_below-Ends :
    (level ptr_index p : ℕ) (r : List ℕ) (s : ProgressFile) (place : ℕ → List ℕ)
    → Tree slot s place
    → At (cells slot s) place s.file_end p r
    → Complete (rev_onto r (digits level ptr_index))
    → Ends
        (λ q s'. Created slot zero_page (rev_onto r (digits level ptr_index)) s s' q)
        (λ s'. Lost slot s s')
        (create_below level ptr_index p s)
unfolding create_below digits cells
create_below-Ends zero idx p r s place tree at_p way =
    read_pointers-Ends _ _ s (later-Lost slot s s place tree (Kept-refl s)) p _ (
      Ends-map _ _ _ _ (status_page_at p (s.pointers p) idx (later s))
        (λ q s'. Kept-Created slot zero_page way (later-Kept slot s))
        (λ s'. Lost-trans slot (later-Kept slot s))
        (status_page_at-Ends (later s) place (later-Tree slot s place tree) p idx r at_p))
create_below-Ends (suc level) idx p r s place tree at_p way =
    let i = idx / longpow 1024 (suc level) in
    let (j, js, e) = digits-cons level (idx % longpow 1024 (suc level)) in
    read_pointers-Ends _ _ s (later-Lost slot s s place tree (Kept-refl s)) p _ (
      then-Ends (λ q s'. Below (later s) s' q (i ∷ r)) _ _ (next_pointers p (s.pointers p) i) _
        (later s)
        (Ends-map _ _ _ _ (next_pointers p (s.pointers p) i (later s)) (λ q s' b. b)
          (λ s'. Lost-trans slot (later-Kept slot s))
          (next_pointers-Ends (later s) place (later-Tree slot s place tree) p i r at_p j js
            (subst (λ l. Complete (rev_onto (i ∷ r) l)) e way)))
        (λ q s' b.
          Ends-map _ _ _ _ (create_below level (idx % longpow 1024 (suc level)) q s')
            (λ q' t. Kept-Created slot zero_page way (Kept-trans slot (later-Kept slot s) b.kept))
            (λ t. Lost-trans slot (Kept-trans slot (later-Kept slot s) b.kept))
            (create_below-Ends level (idx % longpow 1024 (suc level)) q (i ∷ r) s' b.place b.tree
              b.position way)))
