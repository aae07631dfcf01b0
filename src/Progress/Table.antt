-- ===== src/Progress/Table.antt =====
-- The file as a table: what is set is what is read, and where the range ends.
use hcfs.Pages.Failure.{Consumed-nil, HasFailed-ne_nil}
use hcfs.Base.{
  ℕ, ◌/◌, ◌≤◌, ◌≡◌, ◌∙◌, refl, sym, subst, [], Option, none, some, arith, ◌==◌, inl, inr,
  if◌then◌else◌, Result, true, false, Errno,
}
use hcfs.Pages.File.{M, later, pure, set_held, ◌>>=◌, ◌>>◌}
use hcfs.Pages.Levels.{check_page_level, longpow}
use hcfs.Pages.Paths.{Level-cases, first_page}
use hcfs.Pages.Kept.{IsWellFormed}
use hcfs.Pages.Ends.{Ends, Ends-map, read_header-Ends, then-Ends}
use hcfs.Progress.State.{BlockUploadingStatus, ProgressFile, slot}
use hcfs.Progress.Info.{
  ProgressChange, changed_status, get_progress_info, set_progress_info, store_status,
}
use hcfs.Progress.Pages.{create_level, create_status_page}
use hcfs.Progress.Query.{Failed, Only, Only-trans, Failed-later, later-Only, status_of}
use hcfs.Progress.Creation.{no_entry}
use hcfs.Progress.Get.{get_progress_info-Ends, lock-Only, locked_as}
use hcfs.Progress.Set.{Changed, set_progress_info-Updates, unlocked}
use hcfs.Progress.Update.{no_page, or_zero}

-- The entry of a block in the table after the one of `b` was changed.
abbrev pub entry_after : ProgressFile → ℕ → ProgressChange → ℕ → Option BlockUploadingStatus
entry_after s b c b' =
    if b' == b
    then some (changed_status c (or_zero (status_of s b)))
    else (if (b' / 100) == (b / 100) then some (or_zero (status_of s b')) else status_of s b')

-- Where no call fails, `set_progress_info` of a block whose page has a level returns without an error,
-- and `get_progress_info` of any block then gives exactly the table's entry: for the block itself its
-- old status with the change, for another one of its page its old status or a zero one, for any other
-- its old status, and an error exactly where this is none.
pub get_progress_info-set_progress_info :
    (b l : ℕ) (c : ProgressChange) (b' : ℕ) (s : ProgressFile)
    → IsWellFormed slot s
    → check_page_level (b / 100) ≡ Result.ok l
    → s.outcomes ≡ []
    → Ends
        (λ st _. entry_after s b c b' ≡ some st)
        (λ _. entry_after s b c b' ≡ none)
        ((set_progress_info b c >> get_progress_info b') s)
get_progress_info-set_progress_info b l c b' s w level quiet =
    then-Ends (λ _ t. Changed s b c t) (λ st _. entry_after s b c b' ≡ some st)
      (λ _. entry_after s b c b' ≡ none) (set_progress_info b c) (λ _. get_progress_info b') s
      (Ends-map _ _ _ _ (set_progress_info b c s) (λ _ t h. h)
        (λ t h. absurd (HasFailed-ne_nil h.0.failure quiet))
        (set_progress_info-Updates b l c s w level))
      (λ _ t h.
        Ends-map _ _ _ _ (get_progress_info b' t) (λ st u x. sym (h.1 b') ∙ x.0)
          (λ u x. elim x.0 [
            | inl e ↦ sym (h.1 b') ∙ e
            | inr f ↦ absurd (HasFailed-ne_nil f (Consumed-nil h.2 quiet))
          ])
          (get_progress_info-Ends b' t))

far_level : (t l : ℕ) → first_page 5 ≤ t → check_page_level t ≡ Result.ok l → ⊥
unfolding check_page_level longpow first_page
far_level t l h k = ground arith

-- No page is found, and nothing is created.
nothing_created :
    (b : ℕ) (s : ProgressFile) (e : Errno)
    → check_page_level (b / 100) ≡ Result.err e
    → Ends (λ q t. (q ≡ 0) × Only s t) (Failed s) (create_status_page b s)
unfolding create_status_page
nothing_created b s e level =
    read_header-Ends (λ q t. (q ≡ 0) × Only s t) (Failed s) s (Failed-later s) _
      (subst
        (λ r.
          Ends (λ q t. (q ≡ 0) × Only s t) (Failed s)
            ((elim r as (λ _. M ProgressFile ℕ) [
              | Result.ok x ↦ create_level x (b / 100) s.header
              | Result.err y ↦ pure 0
            ])
              (later s)))
        (sym level) (refl, later-Only s))

nothing_set :
    (b : ℕ) (c : ProgressChange) (s t : ProgressFile) (q : ℕ) (e : Errno)
    → check_page_level (b / 100) ≡ Result.err e
    → (q ≡ 0) × Only s t
    → Ends (λ _ u. Only s u × (status_of u b ≡ none)) (Failed s) (store_status b c q t)
unfolding store_status set_held
nothing_set b c s t q e level (z, o) = rw z (
  Only-trans o (lock-Only t false),
  no_entry (locked_as t false) b (no_page (locked_as t false) (b / 100) e level),
)

lock-Failed : (s t : ProgressFile) → Failed (locked_as s true) t → Failed s (locked_as t false)
lock-Failed s t (o, h) = (Only-trans (lock-Only s true) (Only-trans o (lock-Only t false)), h)

-- For a block whose page lies behind the last level `set_progress_info` returns without an error unless
-- a call fails, although it stores nothing: the block has no status, before or after.
pub set_progress_info-Ignores :
    (b : ℕ) (c : ProgressChange) (s : ProgressFile)
    → first_page 5 ≤ b / 100
    → Ends (λ _ s'. Only s s' × (status_of s' b ≡ none)) (Failed s) (set_progress_info b c s)
unfolding set_progress_info set_held
set_progress_info-Ignores b c s far = elim (Level-cases (check_page_level (b / 100))) [
  | inl (l, e) ↦ absurd (far_level (b / 100) l far e)
  | inr (x, e) ↦
      let h = locked_as s true in
      unlocked (λ t. Only s t × (status_of t b ≡ none)) (Failed h) (Failed s)
        ((◌>>=◌ {B = Unit {0}} (create_status_page b) (store_status b c)) h) (lock-Failed s)
        (then-Ends (λ q t. (q ≡ 0) × Only h t) (λ _ t. Only s t × (status_of t b ≡ none)) (Failed h)
          (create_status_page b) (store_status b c) h (nothing_created b h x e)
          (λ q t a.
            Ends-map _ _ _ _ (store_status b c q t)
              (λ _ u r. (Only-trans (lock-Only s true) r.0, r.1)) (λ u r. r)
              (nothing_set b c h t q x e a)))
]
