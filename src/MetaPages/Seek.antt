-- ===== src/MetaPages/Seek.antt =====
-- What the search for a page of block entries finds.
use hcfs.Pages.Failure.{Consumed-later, HasFailed, HasFailed-after}
use hcfs.Base.{
  ℕ, List, zero, suc, ◌/◌, ◌%◌, ◌≡◌, ◌≢◌, ◌≤◌, leb, ◌∙◌, refl, sym, subst, [], ◌∷◌, arith, ◌==◌,
  inl, inr, ==_iff, if◌then◌else◌, Bool, Bool-cases, true, Result, Errno, eio,
}
use hcfs.Base.Int.{pos}
use hcfs.Pages.File.{
  Outcome, M, Run, cells, err, later, ok, pure, read_pointers, system_call, ◌>>=◌,
}
use hcfs.Pages.Ends.{Ends, Ends-map, call-Ends, read_header-Ends, read_pointers-Ends, then-Ends}
use hcfs.Pages.Levels.{check_page_level, digits, index_in_level, longpow, path, path_below}
use hcfs.Pages.Paths.{level_le, path-injective, walk-injective, Level-cases}
use hcfs.Pages.Kept.{IsWellFormed}
use hcfs.Pages.Tree.{walk, walk-break, walk-step}
use hcfs.MetaPages.{
  MetaFile, FileMeta, fread_pointers, load_below, load_indirect, meta_slot, pointers_at,
  seek_and_tell, seek_by, seek_level, seek_page, seek_page2,
}

-- A state in which nothing but the outcomes to come differs.
abbrev pub Same : MetaFile → MetaFile → Type 0
Same s s' = s' ≡ record s { outcomes = s'.outcomes }

abbrev pub Sought : MetaFile → ℕ → ℕ → MetaFile → Type 0
Sought s r q s' = (q ≡ r) × Same s s'

abbrev pub CallFailed : MetaFile → MetaFile → Type 0
CallFailed s s' = HasFailed s.outcomes s'.outcomes × Same s s'

earlier :
    (s : MetaFile) (os : List Outcome) → HasFailed (later s).outcomes os → HasFailed s.outcomes os
earlier s os = HasFailed-after (Consumed-later s.outcomes)

walk-one : (cells : ℕ → ℕ → ℕ) (p i : ℕ) → walk cells p (i ∷ []) ≡ cells p i
unfolding walk
walk-one cells p i = ground arith

cells_pointers : (s : MetaFile) (p i : ℕ) → p ≢ 0 → cells meta_slot s p i ≡ s.pointers p i
unfolding cells
cells_pointers s p i h = ground arith

-- Three calls, and the page of pointers is read.
module _ (Q : ℕ → MetaFile → Type 0) (E : MetaFile → Type 0) where
  read_by :
      (r : Run MetaFile (ℕ → ℕ)) (k : (ℕ → ℕ) → M MetaFile ℕ)
      → Ends Q E (elim r [ ok a t ↦ k a t | err e t ↦ err e t ])
      → Ends Q E
          (elim (elim r as (λ _. Run MetaFile (ℕ → ℕ)) [ ok a t ↦ ok a t | err e t ↦ err eio t ]) [
            | ok a t ↦ k a t
            | err e t ↦ err e t
          ])
  read_by (ok a t) k h = h
  read_by (err e t) k h = h

  pointers_at-Ends :
      (p : ℕ) (k : (ℕ → ℕ) → M MetaFile ℕ) (s : MetaFile)
      → ((t : MetaFile) → Same s t → HasFailed s.outcomes t.outcomes → E t)
      → Ends Q E (k (s.pointers p) (later (later (later s))))
      → Ends Q E (pointers_at p k s)
  unfolding pointers_at seek_and_tell fread_pointers
  pointers_at-Ends p k s failing h =
      then-Ends (λ a t. (a ≡ p) × (t ≡ later (later s))) Q E (seek_and_tell p) _ s
        (call-Ends _ E s (λ e. failing (later s) refl e) _
          (call-Ends _ E (later s) (λ e. failing (later (later s)) refl (earlier s _ e)) _
            (refl, refl)))
        (λ a t sought.
          let e : (a == p) ≡ true = ground (arith, sought.0) in
          rw e (
            subst (λ x. Ends Q E ((fread_pointers p >>= k) x)) (sym sought.1)
              (read_by (read_pointers p (later (later s))) k (
                read_pointers-Ends Q E (later (later s))
                  (λ e.
                    failing (later (later (later s))) refl (earlier s _ (earlier (later s) _ e)))
                  p k h))))

load_below-Sought :
    (count idx p : ℕ) (s : MetaFile)
    → p ≢ 0
    → Ends
        (Sought s (walk (cells meta_slot s) p (digits count idx)))
        (CallFailed s)
        (load_below count idx p s)
unfolding load_below digits cells
load_below-Sought zero idx p s h =
    pointers_at-Ends _ (CallFailed s) p _ s (λ t e o. (o, e))
      (sym (walk-one (cells meta_slot s) p idx ∙ cells_pointers s p idx h), refl)
load_below-Sought (suc count) idx p s h =
    let i = idx / longpow 1024 (suc count) in
    let js = digits count (idx % longpow 1024 (suc count)) in
    let next = s.pointers p i in
    pointers_at-Ends _ (CallFailed s) p _ s (λ t e o. (o, e))
      (elim (Bool-cases (next == 0)) [
        | inl e ↦ rw e (
          sym (walk-break (cells meta_slot s) p i js (cells_pointers s p i h ∙ (==_iff _ _).0 e)),
          refl,
        )
        | inr e ↦ rw e (
            Ends-map _ _ _ _
              (load_below count (idx % longpow 1024 (suc count)) next (later (later (later s))))
              (λ q u r. (
                r.0
                    ∙ sym (
                        walk-step (cells meta_slot s) p i next js (cells_pointers s p i h)
                          (λ z. ground arith)),
                r.1,
              ))
              (λ u r. (earlier s _ (earlier (later s) _ (earlier (later (later s)) _ r.0)), r.1))
              (load_below-Sought count (idx % longpow 1024 (suc count)) next
                (later (later (later s))) (λ z. ground arith)))
      ])

-- The page of a level, where the pages of pointers are read.
below_level :
    (t count : ℕ) (s : MetaFile)
    → count ≤ 3
    → Ends (Sought s (walk (cells meta_slot s) 0 (path (suc count) t))) (CallFailed s) (
        (if meta_slot s.header (suc count) == 0
            then pure 0
            else load_indirect t s.header (suc count))
          s)
unfolding load_indirect path path_below cells
below_level t count s small =
    let is = digits count (index_in_level (suc count) t) in
    let next = meta_slot s.header (suc count) in
    elim (Bool-cases (next == 0)) [
      | inl e ↦
          rw e (sym (walk-break (cells meta_slot s) 0 (suc count) is ((==_iff _ _).0 e)), refl)
      | inr e ↦
          let le : leb count 3 ≡ true = ground arith in
          rw (e, le)
            (Ends-map _ _ _ _ (load_below count (index_in_level (suc count) t) next s)
              (λ q u r. (
                r.0
                    ∙ sym (
                        walk-step (cells meta_slot s) 0 (suc count) next is refl
                          (λ z. ground arith)),
                r.1,
              ))
              (λ u r. r)
              (load_below-Sought count (index_in_level (suc count) t) next s (λ z. ground arith)))
    ]

abbrev Answer : MetaFile → ℕ → ℕ → Run MetaFile ℕ → Type 0
Answer s t l r = Ends (Sought s (walk (cells meta_slot s) 0 (path l t))) (CallFailed s) r

opened_level :
    (t l : ℕ) (s : MetaFile) → l ≤ 4 → Answer s t l (seek_level system_call t s.header l s)
unfolding seek_level path path_below cells
opened_level t zero s small = (sym (walk-one (cells meta_slot s) 0 0), refl)
opened_level t (suc count) s small =
    call-Ends _ (CallFailed s) s (λ e. (e, refl)) _
      (Ends-map (Sought (later s) (walk (cells meta_slot s) 0 (path (suc count) t)))
        (Sought s (walk (cells meta_slot s) 0 (path (suc count) t))) (CallFailed (later s))
        (CallFailed s) _ (λ q u r. r) (λ u r. (earlier s _ r.0, r.1))
        (below_level t count (later s) (omega arith)))

direct_level : (t l : ℕ) (s : MetaFile) → l ≤ 4 → Answer s t l (seek_level (pure tt) t s.header l s)
unfolding seek_level path path_below cells
direct_level t zero s small = (sym (walk-one (cells meta_slot s) 0 0), refl)
direct_level t (suc count) s small = below_level t count s (omega arith)

seek_by-Answer :
    (t l : ℕ) (s : MetaFile) (r : Result ℕ)
    → r ≡ Result.ok l
    → l ≤ 4
    → Answer s t l (seek_by system_call t s.header r s)
      × Answer s t l (seek_by (pure tt) t s.header r s)
unfolding seek_by
seek_by-Answer t l s r e small =
    subst
      (λ r.
        Answer s t l (seek_by system_call t s.header r s)
        × Answer s t l (seek_by (pure tt) t s.header r s))
      (sym e) (opened_level t l s small, direct_level t l s small)

if_true :
    (Q : ℕ → MetaFile → Type 0) (E : MetaFile → Type 0) (b : Bool) (x y : Run MetaFile ℕ)
    → b ≡ true
    → Ends Q E x
    → Ends Q E (if b then x else y)
if_true Q E b x y e h = subst (λ c. Ends Q E (if c then x else y)) (sym e) h

-- `seek_page` on a locked entry, for a page that has a level, returns the position that the header
-- and the pages of pointers give for it, which is 0 where one of them is missing; it fails only where
-- a call fails, and changes nothing.
pub seek_page-Answer :
    (t l : ℕ) (s : MetaFile)
    → check_page_level t ≡ Result.ok l
    → s.held ≡ true
    → Ends (Sought s (walk (cells meta_slot s) 0 (path l t))) (CallFailed s) (seek_page (pos t) s)
unfolding seek_page cells
seek_page-Answer t l s level locked = if_true _ _ s.held _ _ locked (
    read_header-Ends (Sought s (walk (cells meta_slot s) 0 (path l t))) (CallFailed s) s
      (λ e. (e, refl)) _
      (Ends-map _ _ _ _ (seek_by system_call t s.header (check_page_level t) (later s)) (λ q u r. r)
        (λ u r. (earlier s _ r.0, r.1))
        (seek_by-Answer t l (later s) (check_page_level t) level (level_le t l level)).0))

pub seek_page2-Answer :
    (t l : ℕ) (s : MetaFile)
    → check_page_level t ≡ Result.ok l
    → Ends
        (Sought s (walk (cells meta_slot s) 0 (path l t)))
        (CallFailed s)
        (seek_page2 s.header (pos t) s)
unfolding seek_page2
seek_page2-Answer t l s level =
    (seek_by-Answer t l s (check_page_level t) level (level_le t l level)).1

-- Both searches for a page that has a level, that of `seek_page` on a locked entry and that of
-- `seek_page2` with the header of the file, return the position that the header and the pages of
-- pointers give for it, which is 0 where one of them is missing. They fail only where a call fails,
-- and change nothing.
pub seek_pages-Answer :
    (t l : ℕ) (s : MetaFile)
    → check_page_level t ≡ Result.ok l
    → s.held ≡ true
    → Ends (Sought s (walk (cells meta_slot s) 0 (path l t))) (CallFailed s) (seek_page (pos t) s)
      × Ends
          (Sought s (walk (cells meta_slot s) 0 (path l t)))
          (CallFailed s)
          (seek_page2 s.header (pos t) s)
seek_pages-Answer t l s level locked =
    (seek_page-Answer t l s level locked, seek_page2-Answer t l s level)

returned :
    (Q : ℕ → MetaFile → Type 0) (E : MetaFile → Type 0) (r : Run MetaFile ℕ) (q : ℕ) (u : MetaFile)
    → r ≡ ok q u
    → Ends Q E r
    → Q q u
returned Q E r q u e h = subst (Ends Q E) e h

no_level :
    (opening : M MetaFile (Unit {0})) (t : ℕ) (m : FileMeta) (r : Result ℕ) (e : Errno)
    (s : MetaFile) (q : ℕ) (u : MetaFile)
    → r ≡ Result.err e
    → seek_by opening t m r s ≢ ok q u
unfolding seek_by
no_level opening t m (Result.ok l) e s q u h k = cc
no_level opening t m (Result.err x) e s q u h k = cc

not_found :
    (t : ℕ) (s : MetaFile) (q : ℕ) (u : MetaFile) (x : Errno)
    → check_page_level t ≡ Result.err x
    → seek_page2 s.header (pos t) s ≢ ok q u
unfolding seek_page2
not_found t s q u x h = no_level (pure tt) t s.header (check_page_level t) x s q u h

-- The level of a page that was found, and where it was found.
page_found :
    (t : ℕ) (s : MetaFile) (q : ℕ) (u : MetaFile)
    → seek_page2 s.header (pos t) s ≡ ok q u
    → (l : ℕ) × (check_page_level t ≡ Result.ok l) × (q ≡ walk (cells meta_slot s) 0 (path l t))
page_found t s q u e = elim (Level-cases (check_page_level t)) [
  | inl (l, level) ↦ (l, level, (returned _ _ _ q u e (seek_page2-Answer t l s level)).0)
  | inr (x, none_there) ↦ absurd (not_found t s q u x none_there e)
]

-- In a meta file where each page has one place, `seek_page2` finds two pages of blocks at the same
-- position only if they are the same page, or at 0 where a page is missing.
pub seek_page2-apart :
    (t t' : ℕ) (s : MetaFile) (q : ℕ) (u u' : MetaFile)
    → IsWellFormed meta_slot s
    → seek_page2 s.header (pos t) s ≡ ok q u
    → seek_page2 s.header (pos t') s ≡ ok q u'
    → q ≢ 0
    → t ≡ t'
seek_page2-apart t t' s q u u' w e e' there =
    let (l, level, here) = page_found t s q u e in
    let (l', level', here') = page_found t' s q u' e' in
    path-injective l l' t t' level level' (
      walk-injective (cells meta_slot s) s.file_end w.place w.tree (path l t) (path l' t')
        (sym here ∙ here') (λ z. there (here ∙ z)))
