-- ===== src/Progress/Set.antt =====
-- `set_progress_info` as an update of the table of the blocks' status.
use hcfs.Pages.Failure.{Consumed, Consumed-trans, Consumed-twice, HasFailed, HasFailed-after}
use hcfs.Base.{
  ℕ, ◌/◌, ◌%◌, ◌≡◌, ◌∙◌, ◌⊎◌, refl, sym, ap, subst, none, some, arith, ◌==◌, inl, inr, ==_iff,
  if◌then◌else◌, Bool, Bool-cases, true, false, Result,
}
use hcfs.Base.Tables.{update}
use hcfs.Pages.File.{
  M, pure, Run, cells, later_outcomes, end_after, err, later, ok, ◌>>=◌, set_held,
}
use hcfs.Pages.Levels.{check_page_level, path}
use hcfs.Pages.Paths.{level_le, path-Complete}
use hcfs.Pages.Kept.{
  IsWellFormed, Lost, Lost-trans, end_after-le, unlinked-Tree, later-Kept, later-Tree, later-Lost,
}
use hcfs.Pages.Created.{Created, Kept-Created}
use hcfs.Pages.Ends.{Ends, Ends-map, read_header-Ends, read_page-Ends, then-Ends, write_page-Ends}
use hcfs.Progress.State.{
  BlockUploadingStatus, ProgressFile, slot, status_page_size, zero_page, zero_status,
}
use hcfs.Progress.Info.{ProgressChange, changed_status, set_progress_info, store_status}
use hcfs.Progress.Pages.{create_level, create_status_page}
use hcfs.Progress.Create.{Kept-refl}
use hcfs.Progress.Root.{create_level-Ends}
use hcfs.Progress.Query.{page_by, Only-trans, later-Only, status_of, status_page}
use hcfs.Progress.Get.{lock-Only, locked_as}
use hcfs.Progress.Undone.{Undone, Only-IsWellFormed, Only-Created, Lost-Undone, untouched_by}
use hcfs.Progress.Update.{
  created_here, created-other, created-page, or_zero, written-beside, written-here, written-other,
}

-- The table with the block changed. A block without a status on its page gets one with its page.
abbrev pub Updated : ProgressFile → ℕ → ProgressChange → ProgressFile → Type 0
Updated s b c s' =
    (b' : ℕ)
    → status_of s' b' ≡ (
        if b' == b
        then some (changed_status c (or_zero (status_of s b)))
        else (if (b' / 100) == (b / 100) then some (or_zero (status_of s b')) else status_of s b'))

module _ (s : ProgressFile) (b l : ℕ) (w : IsWellFormed slot s)
    (level : check_page_level (b / 100) ≡ Result.ok l) where
  -- A failure after the page is there.
  Created-Undone :
      (t : ProgressFile) (q : ℕ)
      → Created slot zero_page (path l (b / 100)) s t q
      → HasFailed s.outcomes t.outcomes
      → Undone s t
  Created-Undone t q d h = record {
    well_formed = d.well_formed;
    untouched = λ b'. elim (Bool-cases ((b' / 100) == (b / 100))) [
      | inl e ↦
          untouched_by (status_of s b') (status_of t b')
            (created-page s t b l q w level d b' ((==_iff _ _).0 e))
      | inr ne ↦ inl (created-other s t b l q w level d b' (λ z. ground arith))
    ];
    failure = h;
  }

  create_status_page-Created :
      Ends
        (λ q s'. Created slot zero_page (path l (b / 100)) s s' q)
        (λ s'. Lost slot s s')
        (create_status_page b s)
  unfolding create_status_page
  create_status_page-Created =
      read_header-Ends _ _ s (later-Lost slot s s w.place w.tree (Kept-refl s)) _ (
        subst
          (λ r.
            Ends (λ q s'. Created slot zero_page (path l (b / 100)) s s' q) (λ s'. Lost slot s s')
              ((elim r as (λ _. M ProgressFile ℕ) [
                | Result.ok x ↦ create_level x (b / 100) s.header
                | Result.err e ↦ pure 0
              ])
                (later s)))
          (sym level)
          (Ends-map _ _ _ _ (create_level l (b / 100) s.header (later s))
            (λ q s'. Kept-Created slot zero_page (path-Complete l (b / 100)) (later-Kept slot s))
            (λ s'. Lost-trans slot (later-Kept slot s))
            (create_level-Ends l (b / 100) (level_le (b / 100) l level) (later s) w.place
              (later-Tree slot s w.place w.tree))))

  -- The write of the status into the page that was found or created.
  abbrev Done : ProgressChange → ProgressFile → Type 0
  Done c s' =
      IsWellFormed slot s' × Updated s b c s' × Consumed s.outcomes s'.outcomes × (s'.held ≡ false)

  -- The state that the write leaves.
  module _ (c : ProgressChange) (t : ProgressFile) (q : ℕ)
      (d : Created slot zero_page (path l (b / 100)) s t q) where
    abbrev new_status : BlockUploadingStatus
    new_status = changed_status c (t.pages q (b % 100))

    abbrev written : ProgressFile
    written = record t {
      pages = update t.pages q (update (t.pages q) (b % 100) new_status);
      file_end = end_after q status_page_size t.file_end;
      held = false;
      outcomes = later_outcomes (later_outcomes t.outcomes);
    }

    same_cells : cells slot written ≡ cells slot t
    unfolding cells
    same_cells = refl

    written-Updated : Updated s b c written
    written-Updated b' = elim (Bool-cases (b' == b)) [
      | inl e ↦ rw e (
          ap (status_of written) ((==_iff _ _).0 e)
          ∙ written-here s t b l q w level d written new_status same_cells refl
          ∙ ap (λ x. some (changed_status c x)) (created_here s t b l q w level d))
      | inr ne ↦ rw ne (elim (Bool-cases ((b' / 100) == (b / 100))) [
        | inl e ↦ rw e (
            written-beside s t b l q w level d written new_status same_cells refl b'
              ((==_iff _ _).0 e) (λ z. ground arith))
        | inr ne' ↦ rw ne' (
            written-other s t b l q w level d written new_status same_cells refl b'
              (λ z. ground arith))
      ])
    ]

    written-Done : Done c written
    written-Done = (
      record {
        place = d.well_formed.place;
        tree =
            unlinked-Tree slot t written d.well_formed.place same_cells
              (end_after-le q 14400 t.file_end) d.well_formed.tree;
      },
      written-Updated,
      Consumed-trans d.consumed (Consumed-twice t.outcomes),
      refl,
    )

  store_status-Done :
      (c : ProgressChange) (t : ProgressFile) (q : ℕ)
      → Created slot zero_page (path l (b / 100)) s t q
      → Ends (λ _ s'. Done c s') (λ s'. Undone s s') (store_status b c q t)
  unfolding store_status set_held
  store_status-Done c t q d =
      let e : (q == 0) ≡ false = ground (arith, d.there) in
      rw e (
        read_page-Ends _ _ t
          (λ h.
            Created-Undone (later t) q (Only-Created d (later-Only t))
              (HasFailed-after d.consumed h))
          q _
          (write_page-Ends _ _ (later t)
            (λ h.
              Created-Undone (later (later t)) q
                (Only-Created d (Only-trans (later-Only t) (later-Only (later t))))
                (HasFailed-after d.consumed (HasFailed-after (later-Only t).consumed h)))
            status_page_size q _ _ (written-Done c t q d)))

pub unlocked :
    (Q E F : ProgressFile → Type 0) (r : Run ProgressFile (Unit {0}))
    → ((t : ProgressFile) → E t → F (locked_as t false))
    → Ends (λ _ t. Q t) E r
    → Ends (λ _ t. Q t) F (elim r [ ok a t ↦ ok a t | err e t ↦ err e (locked_as t false) ])
unlocked Q E F (ok a t) f h = h
unlocked Q E F (err e t) f h = f t h

lock_status : (s : ProgressFile) (h : Bool) → status_of (locked_as s h) ≡ status_of s
unfolding status_of status_page page_by cells
lock_status s h = refl

unlock-Undone : (s t : ProgressFile) → Undone (locked_as s true) t → Undone s (locked_as t false)
unlock-Undone s t u = record {
  well_formed = Only-IsWellFormed t (locked_as t false) (lock-Only t false) u.well_formed;
  untouched =
      subst
        (λ f. (b : ℕ) → (f b ≡ status_of s b) ⊎ ((status_of s b ≡ none) × (f b ≡ some zero_status)))
        (sym (lock_status t false))
        (subst
          (λ f.
            (b : ℕ) → (status_of t b ≡ f b) ⊎ ((f b ≡ none) × (status_of t b ≡ some zero_status)))
          (lock_status s true) u.untouched);
  failure = u.failure;
}

lock-Updated :
    (s t : ProgressFile) (b : ℕ) (c : ProgressChange)
    → Updated (locked_as s true) b c t
    → Updated s b c t
lock-Updated s t b c =
    subst
      (λ f.
        (b' : ℕ)
        → status_of t b' ≡ (
            if b' == b
            then some (changed_status c (or_zero (f b)))
            else (if (b' / 100) == (b / 100) then some (or_zero (f b')) else f b')))
      (lock_status s true)

abbrev pub Changed : ProgressFile → ℕ → ProgressChange → ProgressFile → Type 0
Changed s b c s' =
    IsWellFormed slot s' × Updated s b c s' × Consumed s.outcomes s'.outcomes × (s'.held ≡ false)

abbrev pub NotChanged : ProgressFile → ProgressFile → Type 0
NotChanged s s' = Undone s s' × (s'.held ≡ false)

-- `set_progress_info`, for a block whose page has a level: it changes the status of this block, gives
-- the other blocks of its page a zero status where they had none, and leaves all others as they are.
-- Where it fails a system call has failed, and no status has changed, but that blocks without one
-- may have a zero one. In both cases the file stays well formed and is unlocked.
pub set_progress_info-Updates :
    (b l : ℕ) (c : ProgressChange) (s : ProgressFile)
    → IsWellFormed slot s
    → check_page_level (b / 100) ≡ Result.ok l
    → Ends (λ _ s'. Changed s b c s') (NotChanged s) (set_progress_info b c s)
unfolding set_progress_info set_held
set_progress_info-Updates b l c s w level =
    let h = locked_as s true in
    let w' = Only-IsWellFormed s h (lock-Only s true) w in
    unlocked (Changed s b c) (Undone h) (NotChanged s)
      ((◌>>=◌ {B = Unit {0}} (create_status_page b) (store_status b c)) h)
      (λ t u. (unlock-Undone s t u, refl))
      (then-Ends (λ q t. Created slot zero_page (path l (b / 100)) h t q) (λ _ t. Changed s b c t)
        (Undone h) (create_status_page b) (store_status b c) h
        (Ends-map _ _ _ _ (create_status_page b h) (λ q t d. d) (λ t. Lost-Undone h t w')
          (create_status_page-Created h b l w' level))
        (λ q t d.
          Ends-map _ _ _ _ (store_status b c q t)
            (λ _ u x. (x.0, lock-Updated s u b c x.1, x.2, x.3)) (λ u x. x)
            (store_status-Done h b l w' level c t q d)))
