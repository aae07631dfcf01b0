-- ===== src/Pages/Kept.antt =====
-- What the operations on such a file keep, state by state.
use hcfs.Pages.Failure.{Consumed, Consumed-later, Consumed-trans, HasFailed, HasFailed-after}
use hcfs.Base.{ℕ, ◌+◌, ◌-◌, ◌≤◌, ◌<◌, ◌≡◌, ◌∙◌, refl, sym, ap, subst, List, ◌∷◌, arith}
use mathlib.Core.Path.{fun_ext}
use hcfs.Base.Tables.{update}
use hcfs.Pages.File.{PageFile, cells, end_after, later, no_pointers}
use hcfs.Pages.Tree.{IsTree, link-IsTree, linked_cells, linked_place, rev_onto, walk}
use hcfs.Pages.Levels.{Complete}
use hcfs.Pages.Growth.{At, link-At, link-found}

pub end_after-new : (e size : ℕ) → 0 < size → end_after e size e ≡ e + size
end_after-new e size h = ground arith

pub end_after-le : (p size e : ℕ) → e ≤ end_after p size e
end_after-le p size e = ground arith

module _ {H P : Type 0} (slot : H → ℕ → ℕ) where
  abbrev pub Tree : PageFile H P → (ℕ → List ℕ) → Type 0
  Tree s place = IsTree (cells slot s) s.file_end place

  -- Each page that is reached from the header has one place.
  pub record IsWellFormed (s : PageFile H P) : Type 0 where
    pub place : ℕ → List ℕ
    pub tree : Tree s place

  -- The complete paths lead where they led, and the pages of data that were there are unchanged.
  pub record Kept (s s' : PageFile H P) : Type 0 where
    pub longer : s.file_end ≤ s'.file_end
    pub leads : (o : List ℕ) → Complete o → walk (cells slot s') 0 o ≡ walk (cells slot s) 0 o
    pub same_pages : (p : ℕ) → p < s.file_end → s'.pages p ≡ s.pages p
    pub consumed : Consumed s.outcomes s'.outcomes

  -- An operation that failed, because of a system call.
  pub record Lost (s s' : PageFile H P) : Type 0 where
    pub well_formed : IsWellFormed s'
    pub kept : Kept s s'
    pub failure : HasFailed s.outcomes s'.outcomes

  pub Kept-trans : {s t u : PageFile H P} → Kept s t → Kept t u → Kept s u
  Kept-trans k l = record {
    longer = omega (arith, k.longer, l.longer);
    leads = λ o c. l.leads o c ∙ k.leads o c;
    same_pages = λ p h. l.same_pages p (omega (arith, k.longer)) ∙ k.same_pages p h;
    consumed = Consumed-trans k.consumed l.consumed;
  }

  pub Lost-trans : {s t u : PageFile H P} → Kept s t → Lost t u → Lost s u
  Lost-trans k l = record {
    well_formed = l.well_formed;
    kept = Kept-trans k l.kept;
    failure = HasFailed-after k.consumed l.failure;
  }

  -- Nothing was linked.
  pub unlinked-Kept :
      (s s' : PageFile H P)
      → cells slot s' ≡ cells slot s
      → s.file_end ≤ s'.file_end
      → ((p : ℕ) → p < s.file_end → s'.pages p ≡ s.pages p)
      → Consumed s.outcomes s'.outcomes
      → Kept s s'
  unlinked-Kept s s' e l p q = record {
    longer = l;
    leads = λ o c. ap (λ t. walk t 0 o) e;
    same_pages = p;
    consumed = q;
  }

  pub unlinked-Tree :
      (s s' : PageFile H P) (place : ℕ → List ℕ)
      → cells slot s' ≡ cells slot s
      → s.file_end ≤ s'.file_end
      → Tree s place
      → Tree s' place
  unlinked-Tree s s' place e l tree =
      subst (λ t. IsTree t s'.file_end place) (sym e)
        (record {
          root = tree.root;
          begun = omega (arith, tree.begun);
          linked = tree.linked;
          below = λ p i. omega (arith, tree.below p i);
          fresh = λ p i h. tree.fresh p i (omega arith);
        })

  pub later-Kept : (s : PageFile H P) → Kept s (later s)
  unfolding cells
  later-Kept s =
      unlinked-Kept s (later s) refl (omega arith) (λ p h. refl) (Consumed-later s.outcomes)

  pub later-Tree : (s : PageFile H P) (place : ℕ → List ℕ) → Tree s place → Tree (later s) place
  unfolding cells
  later-Tree s place tree = unlinked-Tree s (later s) place refl (omega arith) tree

  -- A call that fails after others that succeeded.
  pub later-Lost :
      (s t : PageFile H P) (place : ℕ → List ℕ)
      → Tree t place
      → Kept s t
      → HasFailed t.outcomes (later t).outcomes
      → Lost s (later t)
  later-Lost s t place tree k h = record {
    well_formed = record { place = place; tree = later-Tree t place tree };
    kept = Kept-trans k (later-Kept t);
    failure = HasFailed-after k.consumed h;
  }

  -- A page of zero pointers behind the end of the file.
  pub zeroed :
      (s : PageFile H P) (place : ℕ → List ℕ)
      → Tree s place
      → update s.pointers s.file_end no_pointers ≡ s.pointers
  unfolding cells
  zeroed s place tree = fun_ext λ p. fun_ext λ i. ground (arith, tree.fresh p i, tree.begun)

  -- A page was linked below the one at `p`: `s` is the state before it, `t` the one after it.
  module _ (s t : PageFile H P) (place : ℕ → List ℕ) (p i : ℕ) (tree : Tree s place)
      (known : p < s.file_end) (free : cells slot s p i ≡ 0)
      (linked : cells slot t ≡ linked_cells (cells slot s) s.file_end place p i)
      (longer : s.file_end < t.file_end) where
    end_eq : s.file_end + (t.file_end - s.file_end) ≡ t.file_end
    end_eq = omega arith

    pub linked-Tree : Tree t (linked_place (cells slot s) s.file_end place p i)
    linked-Tree =
        subst (λ e. IsTree (cells slot t) e (linked_place (cells slot s) s.file_end place p i))
          end_eq
          (subst
            (λ c.
              IsTree c (s.file_end + (t.file_end - s.file_end))
                (linked_place (cells slot s) s.file_end place p i))
            (sym linked)
            (link-IsTree (cells slot s) s.file_end place p i tree known free
              (t.file_end - s.file_end) (omega arith)))

    pub linked-At :
        (r : List ℕ)
        → At (cells slot s) place s.file_end p r
        → At
            (cells slot t)
            (linked_place (cells slot s) s.file_end place p i)
            t.file_end
            s.file_end
            (i ∷ r)
    linked-At r a =
        subst
          (λ e.
            At (cells slot t) (linked_place (cells slot s) s.file_end place p i) e s.file_end
              (i ∷ r))
          end_eq
          (subst
            (λ c.
              At c (linked_place (cells slot s) s.file_end place p i)
                (s.file_end + (t.file_end - s.file_end)) s.file_end (i ∷ r))
            (sym linked)
            (link-At (cells slot s) s.file_end place p i tree known free r (t.file_end - s.file_end)
              a (omega arith)))

    pub linked-Kept :
        (j : ℕ) (js : List ℕ)
        → Complete (rev_onto (i ∷ place p) (j ∷ js))
        → ((q : ℕ) → q < s.file_end → t.pages q ≡ s.pages q)
        → Consumed s.outcomes t.outcomes
        → Kept s t
    linked-Kept j js way pages consumed = record {
      longer = omega arith;
      leads = λ o c.
          ap (λ x. walk x 0 o) linked
          ∙ link-found (cells slot s) s.file_end place p i tree known free j js o way c;
      same_pages = pages;
      consumed = consumed;
    }
