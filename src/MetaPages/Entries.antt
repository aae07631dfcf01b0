-- ===== src/MetaPages/Entries.antt =====
-- The pointers that `seek_page` and `seek_page2` read are entries of pages of pointers.
use hcfs.Base.{
  ℕ, zero, suc, ◌<◌, ◌≡◌, ◌∙◌, refl, ap, List, [], ◌∷◌, Result, arith, ◌==◌, if◌then◌else◌, true,
}
use hcfs.Base.Int.{pos}
use hcfs.Pages.File.{Run, cells}
use hcfs.Pages.Ends.{Ends, Ends-map}
use hcfs.Pages.Levels.{check_page_level, digits, longpow, path, path_below, pointers_per_page}
use hcfs.Pages.Paths.{div_lt, level_bounds, level_le, longpow_pos, mod_lt}
use hcfs.Pages.Tree.{walk}
use hcfs.MetaPages.{MetaFile, meta_slot, seek_page, seek_page2}
use hcfs.MetaPages.Seek.{CallFailed, seek_pages-Answer}

-- Every index on the way is one of a page's pointers.
abbrev Within : List ℕ → Type 0
Within [] = Unit {0}
Within (i ∷ is) = (i < pointers_per_page) × Within is

digits-Within : (c a : ℕ) → a < longpow 1024 (suc c) → Within (digits c a)
unfolding digits longpow
digits-Within zero a h = (omega arith, tt)
digits-Within (suc c) a h = (
  div_lt (longpow 1024 (suc c)) a (longpow_pos (suc c)) h,
  digits-Within c _ (mod_lt (longpow 1024 (suc c)) a (longpow_pos (suc c))),
)

path_below-Within : (l t : ℕ) → check_page_level t ≡ Result.ok l → Within (path_below l t)
unfolding path_below
path_below-Within zero t h = tt
path_below-Within (suc l) t h = digits-Within l _ (level_bounds t l h).1

path-Within : (l t : ℕ) → check_page_level t ≡ Result.ok l → Within (path l t)
unfolding path
path-Within l t h = (omega (arith, level_le t l h), path_below-Within l t h)

-- Tables with the same entries lead to the same page.
walk-agree :
    (c d : ℕ → ℕ → ℕ)
    → ((p i : ℕ) → i < pointers_per_page → c p i ≡ d p i)
    → (p : ℕ) (is : List ℕ) → Within is
    → walk c p is ≡ walk d p is
unfolding walk
walk-agree c d agree p [] h = refl
walk-agree c d agree p (i ∷ is) h =
    ap (λ q. if q == 0 then 0 else walk c q is) (agree p i h.0)
    ∙ ap (λ x. if d p i == 0 then 0 else x) (walk-agree c d agree (d p i) is h.1)

-- The file with other pointers.
abbrev pub with_pointers : (ℕ → ℕ → ℕ) → MetaFile → MetaFile
with_pointers f s = record s { pointers = f }

cells-agree :
    (f : ℕ → ℕ → ℕ) (s : MetaFile)
    → ((p i : ℕ) → i < pointers_per_page → f p i ≡ s.pointers p i)
    → (p i : ℕ) → i < pointers_per_page
    → cells meta_slot (with_pointers f s) p i ≡ cells meta_slot s p i
unfolding cells
cells-agree f s agree p i h = ap (λ x. if p == 0 then meta_slot s.header i else x) (agree p i h)

-- The position of a page by the pointers of `s`, or a failed call of a run from `t`.
abbrev pub AsIn : MetaFile → MetaFile → (t l : ℕ) → Run MetaFile ℕ → Type 0
AsIn s u t l r = Ends (λ q _. q ≡ walk (cells meta_slot s) 0 (path l t)) (CallFailed u) r

-- For a page that has a level, `seek_page` on a locked entry and `seek_page2` with the header of the
-- file depend on no pointers but the 1024 of a page: with pointers that agree with the file's at the
-- indices below 1024, and whatever they are at other indices, both return the position that the
-- header and the pages of pointers of the file give, unless the last call that was made has failed.
pub seek_pages-AsIn :
    (t l : ℕ) (s : MetaFile) (f : ℕ → ℕ → ℕ)
    → ((p i : ℕ) → i < pointers_per_page → f p i ≡ s.pointers p i)
    → check_page_level t ≡ Result.ok l
    → s.held ≡ true
    → AsIn s (with_pointers f s) t l (seek_page (pos t) (with_pointers f s))
      × AsIn s (with_pointers f s) t l (seek_page2 s.header (pos t) (with_pointers f s))
seek_pages-AsIn t l s f agree level locked =
    let found = seek_pages-Answer t l (with_pointers f s) level locked in
    let same = walk-agree _ _ (cells-agree f s agree) 0 (path l t) (path-Within l t level) in
    (
      Ends-map _ _ _ _ (seek_page (pos t) (with_pointers f s)) (λ q u r. r.0 ∙ same) (λ u e. e)
          found.0,
      Ends-map _ _ _ _ (seek_page2 s.header (pos t) (with_pointers f s)) (λ q u r. r.0 ∙ same)
          (λ u e. e) found.1,
    )
