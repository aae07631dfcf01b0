-- ===== src/SuperBlock/Locks/Progress.antt =====
-- The locks of the super block cannot block one another for good.
use hcfs.Base.{ℕ, ◌<◌, ◌≤◌, ◌≡◌, ◌≢◌, refl, arith, inl, inr, sym, subst, ◌∙◌}
use hcfs.Base.Family.{sum_below, weight-le_sum, thread_of_sum, zero_or_more}
use hcfs.SuperBlock.Locks.{
  Locks, Pc, outside, got_exclusive, got_cr, got_share, counted, cr_posted, sharing, releasing,
  refused, uncounted, share_posted, waits_share, exclusive, giving, Move, System, Reach, wait_cr,
  wait_share, count_first, count_more, post_cr, post_exclusive, release_wait_cr, refused_post_cr,
  refuse, uncount, post_share, keep_share, release_post_cr, exclusive_wait_share,
  exclusive_post_share, exclusive_post,
}
use hcfs.SuperBlock.Locks.Inv.{
  has_exclusive, is_exclusive, has_cr, has_share, is_uncounted, is_counted, Inv,
}
use hcfs.SuperBlock.Locks.Moves.{Reach-Inv}

-- A step that a thread at `p` can take.
abbrev pub CanMove : Locks → Pc → Type 0
CanMove m p = (m' : Locks) × (p' : Pc) × Move m p m' p'

-- Some thread, past its first wait or with a lock, can take a step.
abbrev pub SomeMove : ℕ → Locks → (ℕ → Pc) → Type 0
SomeMove n m pc = (j : ℕ) × (j < n) × (pc j ≢ outside) × CanMove m (pc j)

module _ (n : ℕ) (m : Locks) (pc : ℕ → Pc) (inv : Inv n m pc) where
  moved : (j : ℕ) (p : Pc) → j < n → pc j ≡ p → p ≢ outside → CanMove m p → SomeMove n m pc
  moved j p lt e ne c = (j, lt, (λ o. ne (sym e ∙ o)), subst (CanMove m) (sym e) c)

  weight_here : (w : Pc → ℕ) (j : ℕ) (p : Pc) → j < n → pc j ≡ p → w p ≤ sum_below w n pc
  weight_here w j p lt e = subst (λ q. w q ≤ sum_below w n pc) e (weight-le_sum w n pc j lt)

  -- The wait for `share_lock_sem` in `super_block_share_locking` never blocks.
  at_cr : (j : ℕ) → j < n → pc j ≡ got_cr → SomeMove n m pc
  at_cr j lt e = elim (zero_or_more m.share_counter) [
    | inl none_yet ↦
        moved j got_cr lt e (λ o. cc)
          (
            _,
            _,
            wait_share none_yet (
                ground (
                  arith,
                  none_yet,
                  inv.taken,
                  inv.exclusives,
                  inv.crs,
                  weight_here has_exclusive j got_cr lt e,
                  weight_here has_cr j got_cr lt e,
                )),
          )
    | inr more ↦ moved j got_cr lt e (λ o. cc) (_, _, count_more (λ z. omega (arith, z)))
  ]

  at_releasing : (j : ℕ) → j < n → pc j ≡ releasing → SomeMove n m pc
  at_releasing j lt e = elim (zero_or_more m.share_counter) [
    | inl none_left ↦ moved j releasing lt e (λ o. cc) (_, _, refuse none_left)
    | inr more ↦ moved j releasing lt e (λ o. cc) (_, _, uncount (λ z. omega (arith, z)))
  ]

  at_uncounted : (j : ℕ) → j < n → pc j ≡ uncounted → SomeMove n m pc
  at_uncounted j lt e = elim (zero_or_more m.share_counter) [
    | inl none_left ↦ moved j uncounted lt e (λ o. cc) (_, _, post_share none_left)
    | inr more ↦ moved j uncounted lt e (λ o. cc) (_, _, keep_share (λ z. omega (arith, z)))
  ]

  -- Threads that can take a step whatever the others do.
  by_cr : (j : ℕ) (p : Pc) → j < n → pc j ≡ p → 0 < has_cr p → SomeMove n m pc
  by_cr j got_cr lt e h = at_cr j lt e
  by_cr j counted lt e h = moved j counted lt e (λ o. cc) (_, _, post_cr)
  by_cr j releasing lt e h = at_releasing j lt e
  by_cr j refused lt e h = moved j refused lt e (λ o. cc) (_, _, refused_post_cr)
  by_cr j share_posted lt e h = moved j share_posted lt e (λ o. cc) (_, _, release_post_cr)
  by_cr j p lt e h = absurd (ground arith)

  by_share : (j : ℕ) (p : Pc) → j < n → pc j ≡ p → 0 < has_share p → SomeMove n m pc
  by_share j got_share lt e h = moved j got_share lt e (λ o. cc) (_, _, count_first)
  by_share j p lt e h = absurd (ground arith)

  by_uncounted : (j : ℕ) (p : Pc) → j < n → pc j ≡ p → 0 < is_uncounted p → SomeMove n m pc
  by_uncounted j uncounted lt e h = at_uncounted j lt e
  by_uncounted j p lt e h = absurd (ground arith)

  by_exclusive : (j : ℕ) (p : Pc) → j < n → pc j ≡ p → 0 < is_exclusive p → SomeMove n m pc
  by_exclusive j exclusive lt e h = moved j exclusive lt e (λ o. cc) (_, _, exclusive_post_share)
  by_exclusive j p lt e h = absurd (ground arith)

  thread_with :
      (w : Pc → ℕ)
      → ((j : ℕ) (p : Pc) → j < n → pc j ≡ p → 0 < w p → SomeMove n m pc)
      → 0 < sum_below w n pc
      → SomeMove n m pc
  thread_with w step h = let (j, lt, at_j) = thread_of_sum w n pc h in step j (pc j) lt refl at_j

  cr_taken : m.share_cr_lock_sem ≡ 0 → SomeMove n m pc
  cr_taken z = elim (zero_or_more (sum_below has_cr n pc)) [
    | inr h ↦ thread_with has_cr by_cr h
    | inl z' ↦ elim (zero_or_more (sum_below has_share n pc)) [
      | inr h ↦ thread_with has_share by_share h
      | inl z'' ↦ thread_with is_uncounted by_uncounted (omega (arith, z, z', z'', inv.crs))
    ]
  ]

  waiting_cr :
      (j : ℕ) (p : Pc)
      → j < n
      → pc j ≡ p
      → p ≢ outside
      → (0 < m.share_cr_lock_sem → CanMove m p)
      → SomeMove n m pc
  waiting_cr j p lt e ne go = elim (zero_or_more m.share_cr_lock_sem) [
    | inl z ↦ cr_taken z
    | inr h ↦ moved j p lt e ne (go h)
  ]

  by_counted : (j : ℕ) (p : Pc) → j < n → pc j ≡ p → 0 < is_counted p → SomeMove n m pc
  by_counted j counted lt e h = moved j counted lt e (λ o. cc) (_, _, post_cr)
  by_counted j cr_posted lt e h = moved j cr_posted lt e (λ o. cc) (_, _, post_exclusive)
  by_counted j sharing lt e h = waiting_cr j sharing lt e (λ o. cc) (λ g. (_, _, release_wait_cr g))
  by_counted j releasing lt e h = at_releasing j lt e
  by_counted j p lt e h = absurd (ground arith)

  -- A thread that waits for the shared locks to be released: one that has one can take a step.
  share_taken : m.share_lock_sem ≡ 0 → SomeMove n m pc
  share_taken z = elim inv.taken [
    | inr (more, none) ↦ thread_with is_counted by_counted (omega (arith, more, inv.number))
    | inl (zero_count, one) ↦ elim (zero_or_more (sum_below is_exclusive n pc)) [
      | inr h ↦ thread_with is_exclusive by_exclusive h
      | inl z' ↦ elim (zero_or_more (sum_below has_share n pc)) [
        | inr h ↦ thread_with has_share by_share h
        | inl z'' ↦ thread_with is_uncounted by_uncounted (omega (arith, z, z', z'', one))
      ]
    ]
  ]

  at_waits_share : (j : ℕ) → j < n → pc j ≡ waits_share → SomeMove n m pc
  at_waits_share j lt e = elim (zero_or_more m.share_lock_sem) [
    | inl z ↦ share_taken z
    | inr h ↦ moved j waits_share lt e (λ o. cc) (_, _, exclusive_wait_share h)
  ]

  from : (j : ℕ) (p : Pc) → j < n → pc j ≡ p → p ≢ outside → SomeMove n m pc
  from j outside lt e ne = absurd (ne refl)
  from j got_exclusive lt e ne = waiting_cr j got_exclusive lt e ne (λ g. (_, _, wait_cr g))
  from j got_cr lt e ne = at_cr j lt e
  from j got_share lt e ne = moved j got_share lt e ne (_, _, count_first)
  from j counted lt e ne = by_counted j counted lt e (omega arith)
  from j cr_posted lt e ne = by_counted j cr_posted lt e (omega arith)
  from j sharing lt e ne = by_counted j sharing lt e (omega arith)
  from j releasing lt e ne = at_releasing j lt e
  from j refused lt e ne = moved j refused lt e ne (_, _, refused_post_cr)
  from j uncounted lt e ne = at_uncounted j lt e
  from j share_posted lt e ne = moved j share_posted lt e ne (_, _, release_post_cr)
  from j waits_share lt e ne = at_waits_share j lt e
  from j exclusive lt e ne = moved j exclusive lt e ne (_, _, exclusive_post_share)
  from j giving lt e ne = moved j giving lt e ne (_, _, exclusive_post)

-- In every state that the threads reach, while a thread has come past the first wait for a lock of
-- the super block and not through the last step of its release, some thread of which this holds can
-- take a step: such threads never all wait for one another.
pub locks_go_on :
    (n : ℕ) (s : System) (i : ℕ) → Reach n s → i < n → s.pc i ≢ outside → SomeMove n s.locks s.pc
locks_go_on n s i r lt ne = from n s.locks s.pc (Reach-Inv r) i (s.pc i) lt refl ne
