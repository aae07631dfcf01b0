-- ===== src/Progress/Undone.antt =====
-- What a failing `set_progress_info` leaves, and states that differ in the lock.
use hcfs.Pages.Failure.{Consumed-refl, Consumed-trans, HasFailed}
use hcfs.Base.{
  ℕ, ◌/◌, ◌%◌, ◌≤◌, ◌≡◌, ◌∙◌, ◌⊎◌, refl, sym, ap, subst, List, Option, none, some, arith, inl, inr,
  Bool,
}
use hcfs.Pages.File.{cells}
use hcfs.Pages.Tree.{IsTree, walk}
use hcfs.Pages.Levels.{path}
use hcfs.Pages.Paths.{path-Complete}
use hcfs.Pages.Kept.{IsWellFormed, Kept, Lost}
use hcfs.Pages.Created.{Created}
use hcfs.Progress.State.{BlockUploadingStatus, ProgressFile, slot, zero_page, zero_status}
use hcfs.Progress.Query.{Only, status_of, status_page}
use hcfs.Progress.Get.{locked_as}
use hcfs.Progress.Update.{or_zero, status_of-eq, status_page-eq, status_page-lt}

-- The table as it was, but that a block without a status may have a zero one.
abbrev pub Untouched : ProgressFile → ProgressFile → Type 0
Untouched s s' =
    (b' : ℕ)
    → (status_of s' b' ≡ status_of s b')
      ⊎ ((status_of s b' ≡ none) × (status_of s' b' ≡ some zero_status))

-- After an error: the lock is released, and a call has failed.
pub record Undone (s s' : ProgressFile) : Type 0 where
  pub well_formed : IsWellFormed slot s'
  pub untouched : Untouched s s'
  pub failure : HasFailed s.outcomes s'.outcomes

pub Only-IsWellFormed : (s t : ProgressFile) → Only s t → IsWellFormed slot s → IsWellFormed slot t
Only-IsWellFormed s t o w = record {
  place = w.place;
  tree =
      subst (λ c. IsTree c t.file_end w.place) (sym o.same_cells)
        (subst (λ e. IsTree (cells slot s) e w.place) (sym o.same_end) w.tree);
}

pub Only-Created :
    {way : List ℕ} {s t u : ProgressFile} {q : ℕ}
    → Created slot zero_page way s t q
    → Only t u
    → Created slot zero_page way s u q
Only-Created {way} {s} {t} {u} {q} d o = record {
  well_formed = Only-IsWellFormed t u o d.well_formed;
  longer = subst (λ e. s.file_end ≤ e) (sym o.same_end) d.longer;
  others = λ p c ne. ap (λ f. walk f 0 p) o.same_cells ∙ d.others p c ne;
  here = ap (λ f. walk f 0 way) o.same_cells ∙ d.here;
  there = d.there;
  same_pages = λ p h. ap (λ f. f p) o.same_pages ∙ d.same_pages p h;
  old_or_new = elim d.old_or_new [
    | inl e ↦ inl e
    | inr (e, z) ↦ inr (e, ap (λ f. f q) o.same_pages ∙ z)
  ];
  consumed = Consumed-trans d.consumed o.consumed;
}

-- From a state that differs in the lock.
pub lock-Kept : (s : ProgressFile) (h : Bool) → Kept slot s (locked_as s h)
unfolding cells
lock-Kept s h = record {
  longer = omega arith;
  leads = λ o c. refl;
  same_pages = λ p lt. refl;
  consumed = Consumed-refl s.outcomes;
}

pub Kept-status :
    (s t : ProgressFile) (b : ℕ)
    → IsWellFormed slot s
    → Kept slot s t
    → status_of t b ≡ status_of s b
Kept-status s t b w k =
    status_of-eq s t b
      (status_page-eq s t (b / 100) (λ l e. k.leads (path l (b / 100)) (path-Complete l (b / 100))))
      (ap (λ f. f (b % 100))
        (k.same_pages (status_page s (b / 100)) (status_page-lt s w.place w.tree (b / 100))))

pub Lost-Undone : (s t : ProgressFile) → IsWellFormed slot s → Lost slot s t → Undone s t
Lost-Undone s t w l = record {
  well_formed = l.well_formed;
  untouched = λ b. inl (Kept-status s t b w l.kept);
  failure = l.failure;
}

pub untouched_by :
    (o o' : Option BlockUploadingStatus)
    → o' ≡ some (or_zero o)
    → (o' ≡ o) ⊎ ((o ≡ none) × (o' ≡ some zero_status))
untouched_by none o' e = inr (refl, e)
untouched_by (some st) o' e = inl e
