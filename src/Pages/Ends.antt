-- ===== src/Pages/Ends.antt =====
-- What holds of the state in which an operation ends, and how it follows call by call.
use hcfs.Pages.Failure.{HasFailed, HasFailed-next}
use hcfs.Base.{ℕ, ◌≡◌, refl, Errno}
use hcfs.Base.Tables.{update}
use hcfs.Pages.File.{
  later, outcome, M, Outcome, PageFile, Run, done, end_after, err, failed, next_outcome, ok,
  pointer_page_size, read_header, read_page, read_pointers, seek_end, system_call, write_header,
  write_page, write_pointers, ◌>>=◌,
}

-- `Q` of the result and the state, or `E` of the state that an error leaves.
abbrev pub Ends : {S A : Type 0} → (A → S → Type 0) → (S → Type 0) → Run S A → Type 0
Ends Q E (ok a s) = Q a s
Ends Q E (err e s) = E s

pub then-Ends :
    {S A B : Type 0} (Q : A → S → Type 0) (R : B → S → Type 0) (E : S → Type 0) (m : M S A)
    (f : A → M S B) (s : S)
    → Ends Q E (m s)
    → ((a : A) (s' : S) → Q a s' → Ends R E (f a s'))
    → Ends R E ((m >>= f) s)
then-Ends {S} {A} {B} Q R E m f s h k = step (m s) h
  where
    step : (r : Run S A) → Ends Q E r → Ends R E (elim r [ ok a s' ↦ f a s' | err e s' ↦ err e s' ])
    step (ok a s') h = k a s' h
    step (err e s') h = h

pub Ends-map :
    {S A : Type 0} (Q R : A → S → Type 0) (E F : S → Type 0) (r : Run S A)
    → ((a : A) (s : S) → Q a s → R a s)
    → ((s : S) → E s → F s)
    → Ends Q E r
    → Ends R F r
Ends-map Q R E F (ok a s) f g h = f a s h
Ends-map Q R E F (err e s) f g h = g s h

module _ {H P A : Type 0} (Q : A → PageFile H P → Type 0) (E : PageFile H P → Type 0) where
  by_outcome :
      (o : Outcome) (s : PageFile H P) (k : Unit {0} → M (PageFile H P) A)
      → Ends Q E (k tt s)
      → ((e : Errno) → o ≡ failed e → E s)
      → Ends Q E ((outcome o >>= k) s)
  unfolding outcome
  by_outcome done s k h f = h
  by_outcome (failed e) s k h f = f e refl

  by_outcome_then :
      {C : Type 0} (o : Outcome) (s : PageFile H P) (g : PageFile H P → C)
      (change : PageFile H P → PageFile H P) (k : C → M (PageFile H P) A)
      → Ends Q E (k (g s) (change s))
      → ((e : Errno) → o ≡ failed e → E s)
      → Ends Q E (((outcome o >>= λ _ t. ok (g t) (change t)) >>= k) s)
  unfolding outcome
  by_outcome_then done s g change k h f = h
  by_outcome_then (failed e) s g change k h f = f e refl

  module _ (s : PageFile H P)
      (failing : HasFailed s.outcomes (later s).outcomes → E (later s)) where
    pub call-Ends :
        (k : Unit {0} → M (PageFile H P) A)
        → Ends Q E (k tt (later s))
        → Ends Q E ((system_call >>= k) s)
    unfolding system_call
    call-Ends k h =
        by_outcome (next_outcome s.outcomes) (later s) k h
          (λ e f. failing (HasFailed-next s.outcomes e f))

    pub read_header-Ends :
        (k : H → M (PageFile H P) A)
        → Ends Q E (k s.header (later s))
        → Ends Q E ((read_header >>= k) s)
    unfolding read_header system_call
    read_header-Ends k h =
        by_outcome_then (next_outcome s.outcomes) (later s) (λ t. t.header) (λ t. t) k h
          (λ e f. failing (HasFailed-next s.outcomes e f))

    pub write_header-Ends :
        (h' : H) (k : Unit {0} → M (PageFile H P) A)
        → Ends Q E (k tt (record (later s) { header = h' }))
        → Ends Q E ((write_header h' >>= k) s)
    unfolding write_header system_call
    write_header-Ends h' k h =
        by_outcome_then (next_outcome s.outcomes) (later s) (λ t. tt)
          (λ t. record t { header = h' }) k h (λ e f. failing (HasFailed-next s.outcomes e f))

    pub read_pointers-Ends :
        (p : ℕ) (k : (ℕ → ℕ) → M (PageFile H P) A)
        → Ends Q E (k (s.pointers p) (later s))
        → Ends Q E ((read_pointers p >>= k) s)
    unfolding read_pointers system_call
    read_pointers-Ends p k h =
        by_outcome_then (next_outcome s.outcomes) (later s) (λ t. t.pointers p) (λ t. t) k h
          (λ e f. failing (HasFailed-next s.outcomes e f))

    pub write_pointers-Ends :
        (p : ℕ) (page : ℕ → ℕ) (k : Unit {0} → M (PageFile H P) A)
        → Ends Q E (
            k tt (record (later s) {
              pointers = update s.pointers p page;
              file_end = end_after p pointer_page_size s.file_end;
            }))
        → Ends Q E ((write_pointers p page >>= k) s)
    unfolding write_pointers system_call
    write_pointers-Ends p page k h =
        by_outcome_then (next_outcome s.outcomes) (later s) (λ t. tt)
          (λ t. record t {
            pointers = update t.pointers p page;
            file_end = end_after p pointer_page_size t.file_end;
          })
          k h (λ e f. failing (HasFailed-next s.outcomes e f))

    pub read_page-Ends :
        (p : ℕ) (k : P → M (PageFile H P) A)
        → Ends Q E (k (s.pages p) (later s))
        → Ends Q E ((read_page p >>= k) s)
    unfolding read_page system_call
    read_page-Ends p k h =
        by_outcome_then (next_outcome s.outcomes) (later s) (λ t. t.pages p) (λ t. t) k h
          (λ e f. failing (HasFailed-next s.outcomes e f))

    pub write_page-Ends :
        (size p : ℕ) (page : P) (k : Unit {0} → M (PageFile H P) A)
        → Ends Q E (
            k tt (record (later s) {
              pages = update s.pages p page;
              file_end = end_after p size s.file_end;
            }))
        → Ends Q E ((write_page size p page >>= k) s)
    unfolding write_page system_call
    write_page-Ends size p page k h =
        by_outcome_then (next_outcome s.outcomes) (later s) (λ t. tt)
          (λ t. record t { pages = update t.pages p page; file_end = end_after p size t.file_end })
          k h (λ e f. failing (HasFailed-next s.outcomes e f))

    pub seek_end-Ends :
        (k : ℕ → M (PageFile H P) A)
        → Ends Q E (k s.file_end (later s))
        → Ends Q E ((seek_end >>= k) s)
    unfolding seek_end system_call
    seek_end-Ends k h =
        by_outcome_then (next_outcome s.outcomes) (later s) (λ t. t.file_end) (λ t. t) k h
          (λ e f. failing (HasFailed-next s.outcomes e f))
