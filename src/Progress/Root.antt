-- ===== src/Progress/Root.antt =====
-- The creation of a status page from the header on.
use hcfs.Pages.Failure.{Consumed-thrice}
use hcfs.Base.{
  ℕ, ◌≤◌, ◌<◌, ◌≡◌, ◌≢◌, ◌∙◌, refl, sym, ap, subst, List, [], ◌∷◌, arith, ◌==◌, ==_iff, inl, inr,
  if◌then◌else◌, Bool-cases, true, false, zero, suc,
}
use mathlib.Core.Path.{fun_ext}
use hcfs.Pages.File.{cells, later, no_pointers}
use hcfs.Pages.Tree.{linked_cells, linked_place, rev_onto, walk-break, walk-nil, walk-step}
use hcfs.Pages.Levels.{Complete, path, path_below, index_in_level}
use hcfs.Pages.Paths.{path-Complete}
use hcfs.Pages.Growth.{At}
use hcfs.Pages.Kept.{
  Lost, Lost-trans, Tree, end_after-new, later-Kept, later-Lost, later-Tree, linked-Kept,
  linked-Tree,
}
use hcfs.Pages.Created.{Created, Kept-Created, found-Created, linked-Created}
use hcfs.Pages.Ends.{
  Ends, Ends-map, seek_end-Ends, then-Ends, write_header-Ends, write_page-Ends, write_pointers-Ends,
}
use hcfs.Progress.State.{ProgressFile, ProgressMeta, slot, set_slot, status_page_size, zero_page}
use hcfs.Progress.Pages.{create_below, create_level, direct_page, root_pointers}
use hcfs.Progress.Create.{
  Below, create_below-Ends, digits-cons, Kept-refl, with_zeros, zeros-Kept, zeros-Tree,
  with_status_page, status-Kept, status-Tree,
}

ne_zero : (n : ℕ) → (n == 0) ≡ false → n ≢ 0
ne_zero n h = ground arith

slot-set_slot :
    (m : ProgressMeta) (level e i : ℕ)
    → level ≤ 4
    → slot (set_slot m level e) i ≡ (if level == i then e else slot m i)
slot-set_slot m level e i h = ground arith

module _ (s : ProgressFile) (place : ℕ → List ℕ) (tree : Tree slot s place) (level : ℕ)
    (le : level ≤ 4) where
  abbrev with_root : ProgressFile
  with_root = record (later (with_zeros s place tree)) {
    header = set_slot s.header level s.file_end;
  }

  root_free : (slot s.header level == 0) ≡ true → cells slot s 0 level ≡ 0
  unfolding cells
  root_free e = (==_iff _ _).0 e

  root_cells : cells slot with_root ≡ linked_cells (cells slot s) s.file_end place 0 level
  unfolding cells
  root_cells = fun_ext λ q.
      fun_ext
        λ k. ground (arith, slot-set_slot s.header level s.file_end k, tree.fresh q k, tree.begun)

  root_cell : cells slot with_root 0 level ≡ s.file_end
  root_cell = ap (λ c. c 0 level) root_cells ∙ ground arith

  root-At :
      slot s.header level ≢ 0
      → At (cells slot s) place s.file_end (slot s.header level) (level ∷ [])
  unfolding cells
  root-At there = record {
    reached =
        walk-step (cells slot s) 0 level (slot s.header level) [] refl there
        ∙ walk-nil (cells slot s) (slot s.header level);
    placed = tree.linked 0 level there ∙ ap (λ l. level ∷ l) tree.root;
    known = tree.below 0 level;
    not_header = there;
  }

  longer_root : s.file_end < with_root.file_end
  longer_root = omega (arith, end_after-new s.file_end 8192 (omega arith))

  pub root_pointers-Ends :
      (j : ℕ) (js : List ℕ)
      → Complete (level ∷ j ∷ js)
      → Ends
          (λ q s'. Below s s' q (level ∷ []))
          (λ s'. Lost slot s s')
          (root_pointers level s.header s)
  unfolding root_pointers
  root_pointers-Ends j js way = elim (Bool-cases (slot s.header level == 0)) [
    | inl e ↦ rw e (
        seek_end-Ends _ _ s (later-Lost slot s s place tree (Kept-refl s)) _ (
          write_pointers-Ends _ _ (later s)
            (later-Lost slot s (later s) place (later-Tree slot s place tree) (later-Kept slot s))
            s.file_end no_pointers _
            (write_header-Ends _ _ (with_zeros s place tree)
              (later-Lost slot s (with_zeros s place tree) place (zeros-Tree s place tree)
                (zeros-Kept s place tree))
              (set_slot s.header level s.file_end) _
              (record {
                place = linked_place (cells slot s) s.file_end place 0 level;
                tree =
                    linked-Tree slot s with_root place 0 level tree tree.begun (root_free e)
                      root_cells longer_root;
                position = record {
                  reached =
                      walk-step (cells slot with_root) 0 level s.file_end [] (root_cell)
                        (omega (arith, tree.begun))
                      ∙ walk-nil (cells slot with_root) s.file_end;
                  placed = ground (arith, tree.root);
                  known = longer_root;
                  not_header = omega (arith, tree.begun);
                };
                kept =
                    linked-Kept slot s with_root place 0 level tree tree.begun (root_free e)
                      root_cells longer_root j js
                      (subst (λ l. Complete (rev_onto (level ∷ l) (j ∷ js))) (sym tree.root) way)
                      (λ q h. refl) (Consumed-thrice s.outcomes);
              }))))
    | inr e ↦ rw e (record {
      place = place;
      tree = tree;
      position = root-At (ne_zero _ e);
      kept = Kept-refl s;
    })
  ]

module _ (s : ProgressFile) (place : ℕ → List ℕ) (tree : Tree slot s place) where
  abbrev with_direct : ProgressFile
  with_direct = record (later (with_status_page s place tree)) {
    header = record s.header { direct = s.file_end };
  }

  direct_cells : cells slot with_direct ≡ linked_cells (cells slot s) s.file_end place 0 0
  unfolding cells
  direct_cells = fun_ext λ q. fun_ext λ k. ground arith

  direct_cell : cells slot s 0 0 ≡ s.header.direct
  unfolding cells
  direct_cell = refl

  direct-Ends :
      Ends
        (λ q s'. Created slot zero_page (0 ∷ []) s s' q)
        (λ s'. Lost slot s s')
        (direct_page s.header s)
  unfolding direct_page
  direct-Ends = elim (Bool-cases (s.header.direct == 0)) [
    | inl e ↦
        let free : cells slot s 0 0 ≡ 0 = direct_cell ∙ (==_iff _ _).0 e in
        rw e (
          seek_end-Ends _ _ s (later-Lost slot s s place tree (Kept-refl s)) _ (
            write_page-Ends _ _ (later s)
              (later-Lost slot s (later s) place (later-Tree slot s place tree) (later-Kept slot s))
              status_page_size s.file_end zero_page _
              (write_header-Ends _ _ (with_status_page s place tree)
                (later-Lost slot s (with_status_page s place tree) place (status-Tree s place tree)
                  (status-Kept s place tree))
                (record s.header { direct = s.file_end }) _
                (linked-Created slot zero_page s with_direct place 0 0 tree tree.begun free
                  direct_cells (omega (arith, end_after-new s.file_end 14400 (omega arith)))
                  (0 ∷ []) (ap (λ l. rev_onto (0 ∷ l) []) tree.root)
                  (walk-break (cells slot s) 0 0 [] free)
                  (walk-step (cells slot with_direct) 0 0 s.file_end []
                      (ap (λ c. c 0 0) direct_cells ∙ ground arith) (omega (arith, tree.begun))
                    ∙ walk-nil (cells slot with_direct) s.file_end)
                  (λ q h. ground arith) (ground arith) (Consumed-thrice s.outcomes)))))
    | inr e ↦ rw e (
        found-Created slot zero_page (0 ∷ []) s place s.header.direct tree
          (walk-step (cells slot s) 0 0 s.header.direct [] direct_cell (ne_zero _ e)
            ∙ walk-nil (cells slot s) s.header.direct)
          (ne_zero _ e))
  ]

-- The page of a level: what `create_level` does with the header that was read.
pub create_level-Ends :
    (level target_page : ℕ)
    → level ≤ 4
    → (s : ProgressFile) (place : ℕ → List ℕ) → Tree slot s place
    → Ends
        (λ q s'. Created slot zero_page (path level target_page) s s' q)
        (λ s'. Lost slot s s')
        (create_level level target_page s.header s)
unfolding create_level path path_below
create_level-Ends zero t le s place tree = direct-Ends s place tree
create_level-Ends (suc level) t le s place tree =
    let idx = index_in_level (suc level) t in
    let (j, js, e) = digits-cons level idx in
    then-Ends (λ q s'. Below s s' q (suc level ∷ [])) _ _ (root_pointers (suc level) s.header)
      (create_below level idx) s
      (root_pointers-Ends s place tree (suc level) le j js
        (subst (λ l. Complete (suc level ∷ l)) e (path-Complete (suc level) t)))
      (λ q s' b.
        Ends-map _ _ _ _ (create_below level idx q s')
          (λ q' u. Kept-Created slot zero_page (path-Complete (suc level) t) b.kept)
          (λ u. Lost-trans slot b.kept)
          (create_below-Ends level idx q (suc level ∷ []) s' b.place b.tree b.position
            (path-Complete (suc level) t)))
