-- ===== src/Progress/Update.antt =====
-- The status of the blocks after a status page was created.
use hcfs.Base.{
  ℕ, ◌/◌, ◌%◌, ◌<◌, ◌≡◌, ◌≢◌, ◌∙◌, refl, sym, ap, List, Option, none, some, arith, ◌==◌, inl, inr,
  if◌then◌else◌, Result, Errno,
}
use hcfs.Base.Tables.{update}
use hcfs.Pages.File.{cells}
use hcfs.Pages.Tree.{walk}
use hcfs.Pages.Levels.{check_page_level, path}
use hcfs.Pages.Paths.{Level-cases, path-Complete, path-below, path-injective, walk-injective}
use hcfs.Pages.Kept.{IsWellFormed, Tree}
use hcfs.Pages.Created.{Created}
use hcfs.Progress.State.{
  BlockUploadingStatus, ProgressFile, UploadingPage, slot, zero_page, zero_status,
}
use hcfs.Progress.Query.{page_by, status_of, status_page}

-- The page of a number at a level.
pub status_page-walk :
    (s : ProgressFile) (t l : ℕ)
    → check_page_level t ≡ Result.ok l
    → status_page s t ≡ walk (cells slot s) 0 (path l t)
unfolding status_page page_by
status_page-walk s t l h = ap (page_by s t) h

page_by-eq :
    (s s' : ProgressFile) (t : ℕ) (r : Result ℕ)
    → ((l : ℕ)
        → r ≡ Result.ok l
        → walk (cells slot s') 0 (path l t) ≡ walk (cells slot s) 0 (path l t))
    → page_by s' t r ≡ page_by s t r
unfolding page_by
page_by-eq s s' t (Result.ok l) h = h l refl
page_by-eq s s' t (Result.err e) h = refl

pub status_page-eq :
    (s s' : ProgressFile) (t : ℕ)
    → ((l : ℕ)
        → check_page_level t ≡ Result.ok l
        → walk (cells slot s') 0 (path l t) ≡ walk (cells slot s) 0 (path l t))
    → status_page s' t ≡ status_page s t
unfolding status_page
status_page-eq s s' t h = page_by-eq s s' t (check_page_level t) h

page_by-lt :
    (s : ProgressFile) (place : ℕ → List ℕ)
    → Tree slot s place
    → (t : ℕ) (r : Result ℕ) → page_by s t r < s.file_end
unfolding page_by
page_by-lt s place tree t (Result.ok l) = path-below (cells slot s) s.file_end place tree l t
page_by-lt s place tree t (Result.err e) = tree.begun

pub status_page-lt :
    (s : ProgressFile) (place : ℕ → List ℕ)
    → Tree slot s place
    → (t : ℕ) → status_page s t < s.file_end
unfolding status_page
status_page-lt s place tree t = page_by-lt s place tree t (check_page_level t)

pub no_page :
    (s : ProgressFile) (t : ℕ) (e : Errno) → check_page_level t ≡ Result.err e → status_page s t ≡ 0
unfolding status_page page_by
no_page s t e h = ap (page_by s t) h

same_status :
    (p p' i : ℕ) (f g : ℕ → UploadingPage)
    → p' ≡ p
    → g p i ≡ f p i
    → (if p' == 0 then none else some (g p' i)) ≡ (if p == 0 then none else some (f p i))
same_status p p' i f g e h = ground arith

pub status_of-eq :
    (s s' : ProgressFile) (b : ℕ)
    → status_page s' (b / 100) ≡ status_page s (b / 100)
    → s'.pages (status_page s (b / 100)) (b % 100) ≡ s.pages (status_page s (b / 100)) (b % 100)
    → status_of s' b ≡ status_of s b
unfolding status_of
status_of-eq s s' b e f =
    same_status (status_page s (b / 100)) (status_page s' (b / 100)) (b % 100) s.pages s'.pages e f

abbrev pub or_zero : Option BlockUploadingStatus → BlockUploadingStatus
or_zero none = zero_status
or_zero (some st) = st

kept_content :
    (p q i : ℕ) (f g : ℕ → UploadingPage)
    → p ≡ q
    → q ≢ 0
    → g p i ≡ f p i
    → g q i ≡ or_zero (if p == 0 then none else some (f p i))
kept_content p q i f g e there h = ground arith

new_content :
    (p q i : ℕ) (f g : ℕ → UploadingPage)
    → p ≡ 0
    → g q ≡ zero_page
    → g q i ≡ or_zero (if p == 0 then none else some (f p i))
new_content p q i f g e z = ground (arith, ap (λ (h : UploadingPage). h i) z)

present :
    (p q i : ℕ) (f : ℕ → UploadingPage)
    → p ≡ q
    → q ≢ 0
    → (if p == 0 then none else some (f p i)) ≡ some (f q i)
present p q i f e there = ground arith

beside :
    (p q i j : ℕ) (new : BlockUploadingStatus) (f : ℕ → UploadingPage)
    → i ≢ j
    → update f q (update (f q) j new) p i ≡ f p i
beside p q i j new f ne = ground arith

-- After the creation of the page of the block `b`.
module _ (s s' : ProgressFile) (b l q : ℕ) (well_formed : IsWellFormed slot s)
    (level : check_page_level (b / 100) ≡ Result.ok l)
    (created : Created slot zero_page (path l (b / 100)) s s' q) where
  there-page : status_page s' (b / 100) ≡ q
  there-page = status_page-walk s' (b / 100) l level ∙ created.here

  other-page : (t : ℕ) → t ≢ b / 100 → status_page s' t ≡ status_page s t
  other-page t ne = status_page-eq s s' t λ m e.
      created.others (path m t) (path-Complete m t)
        (λ same. ne (path-injective m l t (b / 100) e level same))

  -- The other pages are elsewhere.
  page_apart : (t : ℕ) → t ≢ b / 100 → status_page s' t ≢ q
  page_apart t ne same = elim (Level-cases (check_page_level t)) [
    | inl (m, e) ↦ ne (
        path-injective m l t (b / 100) e level (
          walk-injective (cells slot s') s'.file_end created.well_formed.place
            created.well_formed.tree (path m t) (path l (b / 100))
            (sym (status_page-walk s' t m e) ∙ same ∙ sym created.here)
            (λ z. created.there (sym same ∙ status_page-walk s' t m e ∙ z))))
    | inr (x, e) ↦ created.there (sym same ∙ no_page s' t x e)
  ]

  old_content : (t i : ℕ) → s'.pages (status_page s t) i ≡ s.pages (status_page s t) i
  old_content t i =
      ap (λ f. f i)
        (created.same_pages (status_page s t)
          (status_page-lt s well_formed.place well_formed.tree t))

  -- Every block of the page has its status, or the zero one.
  created_content :
      (i : ℕ)
      → s'.pages q i
        ≡ or_zero (
            if status_page s (b / 100) == 0
            then none
            else some (s.pages (status_page s (b / 100)) i))
  created_content i = elim created.old_or_new [
    | inl e ↦
        kept_content (status_page s (b / 100)) q i s.pages s'.pages
          (status_page-walk s (b / 100) l level ∙ e) created.there (old_content (b / 100) i)
    | inr (e, z) ↦
        new_content (status_page s (b / 100)) q i s.pages s'.pages
          (status_page-walk s (b / 100) l level ∙ e) z
  ]

  pub created_here : s'.pages q (b % 100) ≡ or_zero (status_of s b)
  unfolding status_of
  created_here = created_content (b % 100)

  pub created-page :
      (b' : ℕ) → b' / 100 ≡ b / 100 → status_of s' b' ≡ some (or_zero (status_of s b'))
  unfolding status_of
  created-page b' same = rw same (
      present (status_page s' (b / 100)) q (b' % 100) s'.pages there-page created.there
      ∙ ap some (created_content (b' % 100)))

  pub created-other : (b' : ℕ) → b' / 100 ≢ b / 100 → status_of s' b' ≡ status_of s b'
  created-other b' ne =
      status_of-eq s s' b' (other-page (b' / 100) ne) (old_content (b' / 100) (b' % 100))

  -- After the write of the status, too.
  module _ (u : ProgressFile) (new : BlockUploadingStatus)
      (same_cells : cells slot u ≡ cells slot s')
      (written : u.pages ≡ update s'.pages q (update (s'.pages q) (b % 100) new)) where
    written-page : (t : ℕ) → status_page u t ≡ status_page s' t
    written-page t = status_page-eq s' u t λ m e. ap (λ c. walk c 0 (path m t)) same_cells

    pub written-here : status_of u b ≡ some new
    unfolding status_of
    written-here =
        present (status_page u (b / 100)) q (b % 100) u.pages (written-page (b / 100) ∙ there-page)
          created.there
        ∙ ap (λ f. some (f q (b % 100))) written
        ∙ ground arith

    pub written-other : (b' : ℕ) → b' / 100 ≢ b / 100 → status_of u b' ≡ status_of s b'
    written-other b' ne =
        status_of-eq s' u b' (written-page (b' / 100)) (
          ap (λ f. f (status_page s' (b' / 100)) (b' % 100)) written
          ∙ ground (arith, page_apart (b' / 100) ne))
        ∙ created-other b' ne

    pub written-beside :
        (b' : ℕ) → b' / 100 ≡ b / 100 → b' ≢ b → status_of u b' ≡ some (or_zero (status_of s b'))
    written-beside b' same ne =
        status_of-eq s' u b' (written-page (b' / 100)) (
          ap (λ f. f (status_page s' (b' / 100)) (b' % 100)) written
          ∙ beside (status_page s' (b' / 100)) q (b' % 100) (b % 100) new s'.pages (omega arith))
        ∙ created-page b' same
