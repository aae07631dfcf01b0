-- ===== src/Progress/Get.antt =====
-- What `get_progress_info` returns.
use hcfs.Pages.Failure.{Consumed-refl, HasFailed, HasFailed-after}
use hcfs.Base.{
  ℕ, ◌/◌, ◌%◌, ◌≡◌, ◌≢◌, ◌∙◌, refl, sym, ap, none, some, arith, ◌==◌, inl, inr, ==_iff, ◌⊎◌,
  if◌then◌else◌, Bool, Bool-cases, true, false,
}
use hcfs.Pages.File.{cells, later, set_held}
use hcfs.Pages.Ends.{Ends, Ends-map, then-Ends, read_page-Ends}
use hcfs.Progress.State.{ProgressFile, UploadingPage}
use hcfs.Progress.Info.{get_progress_info}
use hcfs.Progress.Pages.{query_status_page}
use hcfs.Progress.Query.{
  page_by, status_page, status_of, Only, Only-trans, later-Only, Answers, query_status_page-Answers,
}

abbrev pub Absent : ProgressFile → ℕ → ProgressFile → Type 0
Absent s b s' = ((status_of s b ≡ none) ⊎ HasFailed s.outcomes s'.outcomes) × Only s s'

abbrev pub locked_as : ProgressFile → Bool → ProgressFile
locked_as s h = record s { held = h }

pub lock-Only : (s : ProgressFile) (h : Bool) → Only s (locked_as s h)
unfolding cells
lock-Only s h = record {
  same_cells = refl;
  same_header = refl;
  same_end = refl;
  same_pages = refl;
  consumed = Consumed-refl s.outcomes;
}

-- A page is where it is, whatever the lock.
Answers-lock :
    (s : ProgressFile) (h : Bool) (t q : ℕ) (s' : ProgressFile)
    → Answers (locked_as s h) (status_page (locked_as s h) t) q s'
    → Answers s (status_page s t) q s'
unfolding status_page page_by cells
Answers-lock s h t q s' (a, o) = (a, Only-trans (lock-Only s h) o)

no_status :
    (s : ProgressFile) (b q : ℕ) (t : ProgressFile)
    → q ≡ 0
    → Answers s (status_page s (b / 100)) q t
    → Absent s b (locked_as t false)
unfolding status_of
no_status s b q t z (inl e, k) = (inl (rw (sym e ∙ z)), Only-trans k (lock-Only t false))
no_status s b q t z (inr (e, h), k) = (inr h, Only-trans k (lock-Only t false))

pub status_some :
    (p q i : ℕ) (pages : ℕ → UploadingPage)
    → q ≡ p
    → q ≢ 0
    → (if p == 0 then none else some (pages p i)) ≡ some (pages q i)
status_some p q i pages e there = ground arith

a_status :
    (s : ProgressFile) (b q : ℕ) (t u : ProgressFile)
    → q ≢ 0
    → Only t u
    → Answers s (status_page s (b / 100)) q t
    → (status_of s b ≡ some (t.pages q (b % 100))) × Only s u
unfolding status_of
a_status s b q t u there o (inl e, k) = (
  status_some (status_page s (b / 100)) q (b % 100) s.pages e there
      ∙ ap (λ f. some (f q (b % 100))) (sym k.same_pages),
  Only-trans k o,
)
a_status s b q t u there o (inr (e, h), k) = absurd (there e)

-- What `get_progress_info` comes to: the status of the block, or an error where it has none or a call
-- failed. Nothing but the lock changes.
pub get_progress_info-Ends :
    (b : ℕ) (s : ProgressFile)
    → Ends (λ st s'. (status_of s b ≡ some st) × Only s s') (Absent s b) (get_progress_info b s)
unfolding get_progress_info set_held
get_progress_info-Ends b s =
    then-Ends (Answers s (status_page s (b / 100))) _ (Absent s b) (query_status_page b) _
      (locked_as s true)
      (Ends-map _ _ _ _ (query_status_page b (locked_as s true))
        (λ q s' a. Answers-lock s true (b / 100) q s' a) (λ s' h. absurd h)
        (query_status_page-Answers b (locked_as s true)))
      (λ q s' a. elim (Bool-cases (q == 0)) [
        | inl e ↦ rw e (no_status s b q s' ((==_iff _ _).0 e) a)
        | inr e ↦ rw e (
            read_page-Ends _ _ s'
              (λ h. (inr (HasFailed-after a.1.consumed h), Only-trans a.1 (later-Only s'))) q _
              (a_status s b q s' (locked_as (later s') false) (λ z. ground arith)
                (Only-trans (later-Only s') (lock-Only (later s') false)) a))
      ])
