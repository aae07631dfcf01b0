-- ===== src/Pages/File.antt =====
-- Such a file as a state, with its reads and writes as a state and error monad, which are those of
-- src/HCFS/macro.h: PREAD, PWRITE, LSEEK, and FSEEK, FTELL, FREAD, MREAD, MWRITE on a stream.
use hcfs.Base.{ℕ, ◌+◌, Bool, List, [], ◌∷◌, Errno, ltb, ◌==◌, if◌then◌else◌}
use hcfs.Base.Tables.{update}

-- What the next system call does.
pub data Outcome : Type 0 where
  done : Outcome
  failed : Errno → Outcome

-- Pages of pointers (`PTR_ENTRY_PAGE`) and pages of data by their position, with zeros where nothing
-- was written. `held` is the lock of the file, `outcomes` what the calls to come do.
pub record PageFile (H P : Type 0) : Type 0 where
  pub header : H
  pub pointers : ℕ → ℕ → ℕ
  pub pages : ℕ → P
  pub file_end : ℕ
  pub held : Bool
  pub outcomes : List Outcome

pub data Run (S A : Type 0) : Type 0 where
  ok : A → S → Run S A
  err : Errno → S → Run S A

abbrev pub M : Type 0 → Type 0 → Type 0
M S A = S → Run S A

infixl 5 ◌>>=◌ ◌>>◌
abbrev pub ◌>>=◌ : {S A B : Type 0} → M S A → (A → M S B) → M S B
◌>>=◌ m f s = elim (m s) [ ok a s' ↦ f a s' | err e s' ↦ err e s' ]

abbrev pub ◌>>◌ : {S A B : Type 0} → M S A → M S B → M S B
m >> k = m >>= λ _. k

abbrev pub pure : {S A : Type 0} → A → M S A
pure a s = ok a s

abbrev pub throw : {S A : Type 0} → Errno → M S A
throw e s = err e s

abbrev pub modify : {S : Type 0} → (S → S) → M S (Unit {0})
modify f s = ok tt (f s)

abbrev pub next_outcome : List Outcome → Outcome
next_outcome [] = done
next_outcome (o ∷ os) = o

abbrev pub later_outcomes : List Outcome → List Outcome
later_outcomes [] = []
later_outcomes (o ∷ os) = os

-- sizeof(PTR_ENTRY_PAGE).
abbrev pub pointer_page_size : ℕ
pointer_page_size = 8192

abbrev pub no_pointers : ℕ → ℕ
no_pointers _ = 0

-- The end of the file after a write of `size` bytes at `p`.
abbrev pub end_after : ℕ → ℕ → ℕ → ℕ
end_after p size file_end = if ltb file_end (p + size) then p + size else file_end

module _ {H P : Type 0} where
  unfoldable pub outcome : Outcome → M (PageFile H P) (Unit {0})
  outcome done s = ok tt s
  outcome (failed e) s = err e s

  -- The state after a call that changed nothing.
  abbrev pub later : PageFile H P → PageFile H P
  later s = record s { outcomes = later_outcomes s.outcomes }

  unfoldable pub system_call : M (PageFile H P) (Unit {0})
  system_call s = outcome (next_outcome s.outcomes) (later s)

  unfoldable pub read_header : M (PageFile H P) H
  read_header = system_call >> λ s. ok s.header s

  unfoldable pub write_header : H → M (PageFile H P) (Unit {0})
  write_header h = system_call >> modify (λ s. record s { header = h })

  unfoldable pub read_pointers : ℕ → M (PageFile H P) (ℕ → ℕ)
  read_pointers p = system_call >> λ s. ok (s.pointers p) s

  unfoldable pub write_pointers : ℕ → (ℕ → ℕ) → M (PageFile H P) (Unit {0})
  write_pointers p page =
      system_call
      >> modify (λ s. record s {
        pointers = update s.pointers p page;
        file_end = end_after p pointer_page_size s.file_end;
      })

  unfoldable pub read_page : ℕ → M (PageFile H P) P
  read_page p = system_call >> λ s. ok (s.pages p) s

  unfoldable pub write_page : (size : ℕ) → ℕ → P → M (PageFile H P) (Unit {0})
  write_page size p page =
      system_call
      >> modify
          (λ s. record s { pages = update s.pages p page; file_end = end_after p size s.file_end })

  -- The position at the end of the file.
  unfoldable pub seek_end : M (PageFile H P) ℕ
  seek_end = system_call >> λ s. ok s.file_end s

  unfoldable pub set_held : Bool → M (PageFile H P) (Unit {0})
  set_held b = modify (λ s. record s { held = b })

  -- The pointers as one table, with the header's as those of the page at 0.
  unfoldable pub cells : (H → ℕ → ℕ) → PageFile H P → ℕ → ℕ → ℕ
  cells slot s p i = if p == 0 then slot s.header i else s.pointers p i
