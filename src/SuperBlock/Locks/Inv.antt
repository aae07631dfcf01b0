-- ===== src/SuperBlock/Locks/Inv.antt =====
-- What the semaphores of the super block count.
use hcfs.Base.{ℕ, ◌+◌, ◌<◌, ◌≡◌, ◌⊎◌}
use hcfs.Base.Family.{sum_below}
use hcfs.SuperBlock.Locks.{
  Locks, Pc, got_exclusive, got_cr, got_share, counted, cr_posted, sharing, releasing, refused,
  uncounted, share_posted, waits_share, exclusive, giving,
}

-- The holder of `exclusive_lock_sem`, other than with the exclusive lock.
abbrev pub has_exclusive : Pc → ℕ
has_exclusive got_exclusive = 1
has_exclusive got_cr = 1
has_exclusive got_share = 1
has_exclusive counted = 1
has_exclusive cr_posted = 1
has_exclusive waits_share = 1
has_exclusive giving = 1
has_exclusive _ = 0

abbrev pub is_exclusive : Pc → ℕ
is_exclusive exclusive = 1
is_exclusive _ = 0

-- The holder of `share_cr_lock_sem`, but for `got_share` and `uncounted`.
abbrev pub has_cr : Pc → ℕ
has_cr got_cr = 1
has_cr counted = 1
has_cr releasing = 1
has_cr refused = 1
has_cr share_posted = 1
has_cr _ = 0

abbrev pub has_share : Pc → ℕ
has_share got_share = 1
has_share _ = 0

abbrev pub is_uncounted : Pc → ℕ
is_uncounted uncounted = 1
is_uncounted _ = 0

-- The threads that `share_counter` counts.
abbrev pub is_counted : Pc → ℕ
is_counted counted = 1
is_counted cr_posted = 1
is_counted sharing = 1
is_counted releasing = 1
is_counted _ = 0

abbrev pub is_refused : Pc → ℕ
is_refused refused = 1
is_refused _ = 0

-- `share_lock_sem` is with a thread that has the exclusive lock or is about to count or to post it,
-- or with the counted threads together.
abbrev pub IsTaken : Locks → (x k u : ℕ) → Type 0
IsTaken m x k u =
    ((m.share_counter ≡ 0) × (m.share_lock_sem + x + k + u ≡ 1))
    ⊎ ((0 < m.share_counter) × (m.share_lock_sem + x + k ≡ 0))

pub record Inv (n : ℕ) (m : Locks) (pc : ℕ → Pc) : Type 0 where
  pub exclusives :
      m.exclusive_lock_sem + sum_below has_exclusive n pc + sum_below is_exclusive n pc ≡ 1
  pub crs :
      m.share_cr_lock_sem
        + sum_below has_cr n pc
        + sum_below has_share n pc
        + sum_below is_uncounted n pc
      ≡ 1
  pub number : m.share_counter ≡ sum_below is_counted n pc
  pub taken :
      IsTaken m
        (sum_below is_exclusive n pc)
        (sum_below has_share n pc)
        (sum_below is_uncounted n pc)
  pub none_refused : sum_below is_refused n pc ≡ 0
