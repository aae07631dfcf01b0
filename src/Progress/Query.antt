-- ===== src/Progress/Query.antt =====
-- The status of a block as the file has it, and what the reads of the file find of it.
use hcfs.Pages.Failure.{
  Consumed, Consumed-later, Consumed-refl, Consumed-trans, HasFailed, HasFailed-after,
}
use hcfs.Base.{
  Result, ℕ, zero, suc, ◌/◌, ◌%◌, ◌≡◌, ◌≢◌, ◌∙◌, refl, sym, ap, [], ◌∷◌, Option, none, some, arith,
  ◌==◌, inl, inr, ==_iff, ◌⊎◌, if◌then◌else◌, Bool-cases,
}
use hcfs.Pages.File.{M, Run, cells, err, later, ok, pure}
use hcfs.Pages.Tree.{walk, walk-break, walk-step}
use hcfs.Pages.Ends.{Ends, Ends-map, read_header-Ends, read_pointers-Ends}
use hcfs.Pages.Levels.{check_page_level, digits, index_in_level, longpow, path, path_below}
use hcfs.Progress.State.{BlockUploadingStatus, ProgressFile, max_block_entries_per_page, slot}
use hcfs.Progress.Pages.{query_below, query_level, query_status_page}

unfoldable pub page_by : ProgressFile → ℕ → Result ℕ → ℕ
page_by s target_page (Result.ok level) = walk (cells slot s) 0 (path level target_page)
page_by s target_page (Result.err e) = 0

unfoldable pub status_page : ProgressFile → ℕ → ℕ
status_page s target_page = page_by s target_page (check_page_level target_page)

-- The file as a table from blocks to their status.
unfoldable pub status_of : ProgressFile → ℕ → Option BlockUploadingStatus
status_of s block_index =
    let p = status_page s (block_index / max_block_entries_per_page) in
    if p == 0 then none else some (s.pages p (block_index % max_block_entries_per_page))

-- A state that differs in the lock and the outcomes to come.
pub record Only (s s' : ProgressFile) : Type 0 where
  pub same_cells : cells slot s' ≡ cells slot s
  pub same_header : s'.header ≡ s.header
  pub same_end : s'.file_end ≡ s.file_end
  pub same_pages : s'.pages ≡ s.pages
  pub consumed : Consumed s.outcomes s'.outcomes

pub Only-trans : {s t u : ProgressFile} → Only s t → Only t u → Only s u
Only-trans a b = record {
  same_cells = b.same_cells ∙ a.same_cells;
  same_header = b.same_header ∙ a.same_header;
  same_end = b.same_end ∙ a.same_end;
  same_pages = b.same_pages ∙ a.same_pages;
  consumed = Consumed-trans a.consumed b.consumed;
}

pub Only-refl : (s : ProgressFile) → Only s s
Only-refl s = record {
  same_cells = refl;
  same_header = refl;
  same_end = refl;
  same_pages = refl;
  consumed = Consumed-refl s.outcomes;
}

pub later-Only : (s : ProgressFile) → Only s (later s)
unfolding cells
later-Only s = record {
  same_cells = refl;
  same_header = refl;
  same_end = refl;
  same_pages = refl;
  consumed = Consumed-later s.outcomes;
}

abbrev pub Failed : ProgressFile → ProgressFile → Type 0
Failed s s' = Only s s' × HasFailed s.outcomes s'.outcomes

pub Failed-later : (s : ProgressFile) → HasFailed s.outcomes (later s).outcomes → Failed s (later s)
Failed-later s h = (later-Only s, h)

pub Failed-after : (s t u : ProgressFile) → Only s t → Failed t u → Failed s u
Failed-after s t u a (b, h) = (Only-trans a b, HasFailed-after a.consumed h)

-- What is read on the way.
abbrev pub Reads : ProgressFile → ℕ → ℕ → ProgressFile → Type 0
Reads s r q s' = (q ≡ r) × Only s s'

cells_pointers : (s : ProgressFile) (p i : ℕ) → p ≢ 0 → cells slot s p i ≡ s.pointers p i
unfolding cells
cells_pointers s p i h = ground arith

walk-one : (cells : ℕ → ℕ → ℕ) (p i : ℕ) → walk cells p (i ∷ []) ≡ cells p i
unfolding walk
walk-one cells p i = ground arith

-- After steps that only read, at an equal result.
Reads-after : (s t u : ProgressFile) (a b q : ℕ) → Only s t → b ≡ a → Reads t b q u → Reads s a q u
Reads-after s t u a b q k e (h, l) = (h ∙ e, Only-trans k l)

query_below-Reads :
    (level idx p : ℕ) (s : ProgressFile)
    → p ≢ 0
    → Ends
        (Reads s (walk (cells slot s) p (digits level idx)))
        (Failed s)
        (query_below level idx p s)
unfolding query_below digits
query_below-Reads zero idx p s h =
    read_pointers-Ends (Reads s (walk (cells slot s) p (idx ∷ []))) (Failed s) s (Failed-later s) p
      _ (sym (walk-one (cells slot s) p idx ∙ cells_pointers s p idx h), later-Only s)
query_below-Reads (suc level) idx p s h =
    let i = idx / longpow 1024 (suc level) in
    let js = digits level (idx % longpow 1024 (suc level)) in
    let next = s.pointers p i in
    read_pointers-Ends (Reads s (walk (cells slot s) p (i ∷ js))) (Failed s) s (Failed-later s) p _
      (elim (Bool-cases (next == 0)) [
        | inl e ↦ rw e (
          sym (walk-break (cells slot s) p i js (cells_pointers s p i h ∙ (==_iff _ _).0 e)),
          later-Only s,
        )
        | inr e ↦ rw e (
            Ends-map _ _ _ _ (query_below level (idx % longpow 1024 (suc level)) next (later s))
              (λ q u. Reads-after s (later s) u _ _ q (later-Only s) (
                ap (λ c. walk c next js) (later-Only s).same_cells
                ∙ sym (
                    walk-step (cells slot s) p i next js (cells_pointers s p i h)
                      (λ z. ground arith))))
              (λ u. Failed-after s (later s) u (later-Only s))
              (query_below-Reads level (idx % longpow 1024 (suc level)) next (later s)
                (ground arith)))
      ])

query_level-Reads :
    (level t : ℕ) (s : ProgressFile)
    → Ends
        (Reads s (walk (cells slot s) 0 (path level t)))
        (Failed s)
        (query_level level t s.header s)
unfolding query_level path path_below cells
query_level-Reads zero t s = (sym (walk-one (cells slot s) 0 0), Only-refl s)
query_level-Reads (suc level) t s =
    let is = digits level (index_in_level (suc level) t) in
    let next = slot s.header (suc level) in
    elim (Bool-cases (next == 0)) [
      | inl e ↦
          rw e (sym (walk-break (cells slot s) 0 (suc level) is ((==_iff _ _).0 e)), Only-refl s)
      | inr e ↦ rw e (
          Ends-map _ _ _ _ (query_below level (index_in_level (suc level) t) next s)
            (λ q u.
              Reads-after s s u _ _ q (Only-refl s)
                (sym (walk-step (cells slot s) 0 (suc level) next is refl (λ z. ground arith))))
            (λ u h. h)
            (query_below-Reads level (index_in_level (suc level) t) next s (λ z. ground arith)))
    ]

by_level :
    (s : ProgressFile) (t : ℕ) (r : Result ℕ)
    → Ends (Reads s (page_by s t r)) (Failed s) (
        (elim r as (λ _. M ProgressFile ℕ) [
          | Result.ok l ↦ query_level l t s.header
          | Result.err e ↦ pure 0
        ])
          (later s))
unfolding page_by
by_level s t (Result.ok l) =
    Ends-map _ _ _ _ (query_level l t s.header (later s))
      (λ q u.
        Reads-after s (later s) u _ _ q (later-Only s)
          (ap (λ c. walk c 0 (path l t)) (later-Only s).same_cells))
      (λ u. Failed-after s (later s) u (later-Only s)) (query_level-Reads l t (later s))
by_level s t (Result.err e) = (refl, later-Only s)

-- The position that is asked for, or 0 where a call failed.
abbrev pub Answers : ProgressFile → ℕ → ℕ → ProgressFile → Type 0
Answers s p q s' = ((q ≡ p) ⊎ ((q ≡ 0) × HasFailed s.outcomes s'.outcomes)) × Only s s'

caught :
    (s : ProgressFile) (a : ℕ) (r : Run ProgressFile ℕ)
    → Ends (Reads s a) (Failed s) r
    → Ends (Answers s a) (λ _. ⊥) (elim r [ ok a s' ↦ ok a s' | err e s' ↦ ok 0 s' ])
caught s a (ok q s') (e, o) = (inl e, o)
caught s a (err e s') (o, h) = (inr (refl, h), o)

pub query_status_page-Answers :
    (b : ℕ) (s : ProgressFile)
    → Ends (Answers s (status_page s (b / 100))) (λ _. ⊥) (query_status_page b s)
unfolding query_status_page status_page
query_status_page-Answers b s = caught s _ _ (
    read_header-Ends (Reads s _) (Failed s) s (Failed-later s) _
      (by_level s (b / 100) (check_page_level (b / 100))))
