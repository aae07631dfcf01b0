-- ===== src/HashList/Locks/Progress.antt =====
-- The locks of the hash table cannot block one another for good.
use hcfs.Base.{ℕ, ◌<◌, ◌≤◌, ◌≡◌, ◌≢◌, refl, arith, inl, inr, sym, subst, ◌∙◌}
use hcfs.Base.Family.{sum_below, weight-le_sum, thread_of_sum, zero_or_more}
use hcfs.HashList.Locks.{
  Locks, Pc, outside, got_bucket, got_table, got_shared, got_can, counted, shared_posted, inside,
  unlocking, uncounted, released, posted, waits_can, global, giving, Move, System, Reach,
  wait_table, wait_shared, confiscate, count_first, count_more, post_shared, post_table,
  unlock_wait_shared, uncount, give_back, keep_confiscated, unlock_post_shared, post_bucket,
  global_wait_can, global_post_can, global_post_table,
}
use hcfs.HashList.Locks.Inv.{
  has_table, is_global, has_shared, has_can, is_uncounted, is_counted, max_threads, Inv,
}
use hcfs.HashList.Locks.Moves.{Reach-Inv}

-- A step that a thread at `p` can take.
abbrev pub CanMove : Locks → Pc → Type 0
CanMove m p = (m' : Locks) × (p' : Pc) × Move m p m' p'

-- Some thread, inside a call or between lock and unlock, can take a step.
abbrev pub SomeMove : ℕ → Locks → (ℕ → Pc) → Type 0
SomeMove n m pc = (j : ℕ) × (j < n) × (pc j ≢ outside) × CanMove m (pc j)

module _ (n : ℕ) (m : Locks) (pc : ℕ → Pc) (inv : Inv n m pc) where
  -- The thread at `p` can take a step.
  moved : (j : ℕ) (p : Pc) → j < n → pc j ≡ p → p ≢ outside → CanMove m p → SomeMove n m pc
  moved j p lt e ne c = (j, lt, (λ o. ne (sym e ∙ o)), subst (CanMove m) (sym e) c)

  weight_here : (w : Pc → ℕ) (j : ℕ) (p : Pc) → j < n → pc j ≡ p → w p ≤ sum_below w n pc
  weight_here w j p lt e = subst (λ q. w q ≤ sum_below w n pc) e (weight-le_sum w n pc j lt)

  at_can : (j b : ℕ) → j < n → pc j ≡ got_can b → SomeMove n m pc
  at_can j b lt e = moved j (got_can b) lt e (λ o. cc) (_, _, count_first)

  at_uncounted : (j b : ℕ) → j < n → pc j ≡ uncounted b → SomeMove n m pc
  at_uncounted j b lt e = elim (zero_or_more m.num_lock_bucket) [
    | inl none_left ↦ moved j (uncounted b) lt e (λ o. cc) (_, _, give_back none_left)
    | inr more ↦
        moved j (uncounted b) lt e (λ o. cc) (_, _, keep_confiscated (λ z. omega (arith, z)))
  ]

  -- The wait for `can_lock_table_sem` in `_bucket_lock` never blocks.
  at_shared : (j b : ℕ) → j < n → pc j ≡ got_shared b → SomeMove n m pc
  at_shared j b lt e = elim (zero_or_more m.num_lock_bucket) [
    | inl none_yet ↦
        moved j (got_shared b) lt e (λ o. cc)
          (
            _,
            _,
            confiscate none_yet (
                ground (
                  arith,
                  none_yet,
                  inv.confiscated,
                  inv.table,
                  inv.shared,
                  weight_here has_table j (got_shared b) lt e,
                  weight_here has_shared j (got_shared b) lt e,
                )),
          )
    | inr more ↦ moved j (got_shared b) lt e (λ o. cc) (_, _, count_more (λ z. omega (arith, z)))
  ]

  -- The holder of `shared_var_sem` can take a step.
  by_shared : (j : ℕ) (p : Pc) → j < n → pc j ≡ p → 0 < has_shared p → SomeMove n m pc
  by_shared j (got_shared b) lt e h = at_shared j b lt e
  by_shared j (counted b) lt e h = moved j (counted b) lt e (λ o. cc) (_, _, post_shared)
  by_shared j (unlocking b) lt e h = moved j (unlocking b) lt e (λ o. cc) (_, _, uncount)
  by_shared j (released b) lt e h = moved j (released b) lt e (λ o. cc) (_, _, unlock_post_shared)
  by_shared j outside lt e h = absurd (omega arith)
  by_shared j (got_bucket b) lt e h = absurd (omega arith)
  by_shared j (got_table b) lt e h = absurd (omega arith)
  by_shared j (got_can b) lt e h = absurd (omega arith)
  by_shared j (shared_posted b) lt e h = absurd (omega arith)
  by_shared j (inside b) lt e h = absurd (omega arith)
  by_shared j (uncounted b) lt e h = absurd (omega arith)
  by_shared j (posted b) lt e h = absurd (omega arith)
  by_shared j waits_can lt e h = absurd (omega arith)
  by_shared j global lt e h = absurd (omega arith)
  by_shared j giving lt e h = absurd (omega arith)

  by_can : (j : ℕ) (p : Pc) → j < n → pc j ≡ p → 0 < has_can p → SomeMove n m pc
  by_can j (got_can b) lt e h = at_can j b lt e
  by_can j p lt e h = absurd (ground arith)

  by_uncounted : (j : ℕ) (p : Pc) → j < n → pc j ≡ p → 0 < is_uncounted p → SomeMove n m pc
  by_uncounted j (uncounted b) lt e h = at_uncounted j b lt e
  by_uncounted j p lt e h = absurd (ground arith)

  by_global : (j : ℕ) (p : Pc) → j < n → pc j ≡ p → 0 < is_global p → SomeMove n m pc
  by_global j global lt e h = moved j global lt e (λ o. cc) (_, _, global_post_can)
  by_global j p lt e h = absurd (ground arith)

  thread_with :
      (w : Pc → ℕ)
      → ((j : ℕ) (p : Pc) → j < n → pc j ≡ p → 0 < w p → SomeMove n m pc)
      → 0 < sum_below w n pc
      → SomeMove n m pc
  thread_with w step h = let (j, lt, at_j) = thread_of_sum w n pc h in step j (pc j) lt refl at_j

  -- A wait for `shared_var_sem` ends, or its holder can take a step.
  shared_taken : m.shared_var_sem ≡ 0 → SomeMove n m pc
  shared_taken z = elim (zero_or_more (sum_below has_shared n pc)) [
    | inr h ↦ thread_with has_shared by_shared h
    | inl z' ↦ elim (zero_or_more (sum_below has_can n pc)) [
      | inr h ↦ thread_with has_can by_can h
      | inl z'' ↦ thread_with is_uncounted by_uncounted (omega (arith, z, z', z'', inv.shared))
    ]
  ]

  waiting_shared :
      (j : ℕ) (p : Pc)
      → j < n
      → pc j ≡ p
      → p ≢ outside
      → (0 < m.shared_var_sem → CanMove m p)
      → SomeMove n m pc
  waiting_shared j p lt e ne go = elim (zero_or_more m.shared_var_sem) [
    | inl z ↦ shared_taken z
    | inr h ↦ moved j p lt e ne (go h)
  ]

  at_inside : (j b : ℕ) → j < n → pc j ≡ inside b → SomeMove n m pc
  at_inside j b lt e =
      waiting_shared j (inside b) lt e (λ o. cc) (λ h. (_, _, unlock_wait_shared h))

  by_counted : (j : ℕ) (p : Pc) → j < n → pc j ≡ p → 0 < is_counted p → SomeMove n m pc
  by_counted j (counted b) lt e h = moved j (counted b) lt e (λ o. cc) (_, _, post_shared)
  by_counted j (shared_posted b) lt e h =
      moved j (shared_posted b) lt e (λ o. cc) (_, _, post_table)
  by_counted j (unlocking b) lt e h = moved j (unlocking b) lt e (λ o. cc) (_, _, uncount)
  by_counted j (inside b) lt e h = at_inside j b lt e
  by_counted j p lt e h = absurd (ground arith)

  -- A thread that waits for the lists to be given back: one that has a list can take a step.
  can_taken : m.can_lock_table_sem ≡ 0 → SomeMove n m pc
  can_taken z = elim inv.confiscated [
    | inr (more, none) ↦ thread_with is_counted by_counted (omega (arith, more, inv.number))
    | inl (zero_num, one) ↦ elim (zero_or_more (sum_below is_global n pc)) [
      | inr h ↦ thread_with is_global by_global h
      | inl z' ↦ elim (zero_or_more (sum_below has_can n pc)) [
        | inr h ↦ thread_with has_can by_can h
        | inl z'' ↦ thread_with is_uncounted by_uncounted (omega (arith, z, z', z'', one))
      ]
    ]
  ]

  at_waits_can : (j : ℕ) → j < n → pc j ≡ waits_can → SomeMove n m pc
  at_waits_can j lt e = elim (zero_or_more m.can_lock_table_sem) [
    | inl z ↦ can_taken z
    | inr h ↦ moved j waits_can lt e (λ o. cc) (_, _, global_wait_can h)
  ]

  at_table : (j b : ℕ) → j < n → pc j ≡ got_table b → SomeMove n m pc
  at_table j b lt e = waiting_shared j (got_table b) lt e (λ o. cc) (λ h. (_, _, wait_shared h))

  by_table : (j : ℕ) (p : Pc) → j < n → pc j ≡ p → 0 < has_table p → SomeMove n m pc
  by_table j (got_table b) lt e h = at_table j b lt e
  by_table j (got_shared b) lt e h = at_shared j b lt e
  by_table j (got_can b) lt e h = at_can j b lt e
  by_table j (counted b) lt e h = moved j (counted b) lt e (λ o. cc) (_, _, post_shared)
  by_table j (shared_posted b) lt e h = moved j (shared_posted b) lt e (λ o. cc) (_, _, post_table)
  by_table j waits_can lt e h = at_waits_can j lt e
  by_table j giving lt e h = moved j giving lt e (λ o. cc) (_, _, global_post_table)
  by_table j p lt e h = absurd (ground arith)

  table_taken : m.table_sem ≡ 0 → SomeMove n m pc
  table_taken z = elim (zero_or_more (sum_below is_global n pc)) [
    | inr h ↦ thread_with is_global by_global h
    | inl z' ↦ thread_with has_table by_table (omega (arith, z, z', inv.table))
  ]

  at_bucket : (j b : ℕ) → j < n → pc j ≡ got_bucket b → SomeMove n m pc
  at_bucket j b lt e = elim (zero_or_more m.table_sem) [
    | inl z ↦ table_taken z
    | inr h ↦ moved j (got_bucket b) lt e (λ o. cc) (_, _, wait_table h)
  ]

  from : (j : ℕ) (p : Pc) → j < n → pc j ≡ p → p ≢ outside → SomeMove n m pc
  from j outside lt e ne = absurd (ne refl)
  from j (got_bucket b) lt e ne = at_bucket j b lt e
  from j (got_table b) lt e ne = at_table j b lt e
  from j (got_shared b) lt e ne = at_shared j b lt e
  from j (got_can b) lt e ne = at_can j b lt e
  from j (counted b) lt e ne = by_counted j (counted b) lt e (omega arith)
  from j (shared_posted b) lt e ne = by_counted j (shared_posted b) lt e (omega arith)
  from j (inside b) lt e ne = at_inside j b lt e
  from j (unlocking b) lt e ne = by_counted j (unlocking b) lt e (omega arith)
  from j (uncounted b) lt e ne = at_uncounted j b lt e
  from j (released b) lt e ne = by_shared j (released b) lt e (omega arith)
  from j (posted b) lt e ne = moved j (posted b) lt e ne (_, _, post_bucket)
  from j waits_can lt e ne = at_waits_can j lt e
  from j global lt e ne = by_global j global lt e (omega arith)
  from j giving lt e ne = by_table j giving lt e (omega arith)

-- In a state that fewer than 2^32 threads reach, while a thread has come past the first wait of a
-- lock call and not through the last step of the unlock call, some thread of which this holds can
-- take a step: such threads never all wait for one another.
pub no_deadlock :
    (n : ℕ) (s : System) (i : ℕ)
    → n < max_threads
    → Reach n s
    → i < n
    → s.pc i ≢ outside
    → SomeMove n s.locks s.pc
no_deadlock n s i few r lt ne = from n s.locks s.pc (Reach-Inv few r) i (s.pc i) lt refl ne
