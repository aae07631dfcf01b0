-- ===== src/Pages/Created.antt =====
-- What the creation of a page of data comes to.
use hcfs.Pages.Failure.{Consumed, Consumed-refl, Consumed-trans}
use hcfs.Base.{ℕ, ◌≤◌, ◌<◌, ◌≡◌, ◌≢◌, ◌⊎◌, ◌∙◌, inl, inr, refl, sym, ap, List, [], ◌∷◌, arith}
use hcfs.Pages.File.{PageFile, cells}
use hcfs.Pages.Tree.{linked_cells, linked_place, rev_onto, walk}
use hcfs.Pages.Levels.{Complete}
use hcfs.Pages.Growth.{link_last-found}
use hcfs.Pages.Kept.{IsWellFormed, Kept, Tree, linked-Tree}

module _ {H P : Type 0} (slot : H → ℕ → ℕ) (zero_page : P) where
  -- The page at the end of `way` is at `q`: it was there, or it is new and zero. The other complete
  -- paths lead where they led, and the pages of data that were there are unchanged.
  pub record Created (way : List ℕ) (s s' : PageFile H P) (q : ℕ) : Type 0 where
    pub well_formed : IsWellFormed slot s'
    pub longer : s.file_end ≤ s'.file_end
    pub others :
        (o : List ℕ) → Complete o → o ≢ way → walk (cells slot s') 0 o ≡ walk (cells slot s) 0 o
    pub here : walk (cells slot s') 0 way ≡ q
    pub there : q ≢ 0
    pub same_pages : (p : ℕ) → p < s.file_end → s'.pages p ≡ s.pages p
    pub old_or_new :
        (walk (cells slot s) 0 way ≡ q)
        ⊎ ((walk (cells slot s) 0 way ≡ 0) × (s'.pages q ≡ zero_page))
    pub consumed : Consumed s.outcomes s'.outcomes

  -- After steps that kept everything.
  pub Kept-Created :
      {way : List ℕ} {s t u : PageFile H P} {q : ℕ}
      → Complete way
      → Kept slot s t
      → Created way t u q
      → Created way s u q
  Kept-Created {way} c k d = record {
    well_formed = d.well_formed;
    longer = omega (arith, k.longer, d.longer);
    others = λ o e ne. d.others o e ne ∙ k.leads o e;
    here = d.here;
    there = d.there;
    same_pages = λ p h. d.same_pages p (omega (arith, k.longer)) ∙ k.same_pages p h;
    old_or_new = elim d.old_or_new [
      | inl e ↦ inl (sym (k.leads way c) ∙ e)
      | inr (e, z) ↦ inr (sym (k.leads way c) ∙ e, z)
    ];
    consumed = Consumed-trans k.consumed d.consumed;
  }

  -- The page was there.
  pub found-Created :
      (way : List ℕ) (s : PageFile H P) (place : ℕ → List ℕ) (q : ℕ)
      → Tree slot s place
      → walk (cells slot s) 0 way ≡ q
      → q ≢ 0
      → Created way s s q
  found-Created way s place q tree here there = record {
    well_formed = record { place = place; tree = tree };
    longer = omega arith;
    others = λ o c ne. refl;
    here = here;
    there = there;
    same_pages = λ p h. refl;
    old_or_new = inl here;
    consumed = Consumed-refl s.outcomes;
  }

  -- The page is new: `s` is the state before, `t` the one after its link was written.
  module _ (s t : PageFile H P) (place : ℕ → List ℕ) (p i : ℕ) (tree : Tree slot s place)
      (known : p < s.file_end) (free : cells slot s p i ≡ 0)
      (linked : cells slot t ≡ linked_cells (cells slot s) s.file_end place p i)
      (longer : s.file_end < t.file_end) where
    pub linked-Created :
        (way : List ℕ)
        → rev_onto (i ∷ place p) [] ≡ way
        → walk (cells slot s) 0 way ≡ 0
        → walk (cells slot t) 0 way ≡ s.file_end
        → ((q : ℕ) → q < s.file_end → t.pages q ≡ s.pages q)
        → t.pages s.file_end ≡ zero_page
        → Consumed s.outcomes t.outcomes
        → Created way s t s.file_end
    linked-Created way e absent present pages zero consumed = record {
      well_formed = record {
        place = linked_place (cells slot s) s.file_end place p i;
        tree = linked-Tree slot s t place p i tree known free linked longer;
      };
      longer = omega arith;
      others = λ o c ne.
          ap (λ x. walk x 0 o) linked
          ∙ link_last-found (cells slot s) s.file_end place p i tree known free way o e ne;
      here = present;
      there = omega (arith, tree.begun);
      same_pages = pages;
      old_or_new = inr (absent, zero);
      consumed = consumed;
    }
