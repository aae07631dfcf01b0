-- ===== src/SuperBlock/Locks/Moves.antt =====
-- A move of thread `i` keeps what the semaphores of the super block count.
use hcfs.Base.{ℕ, ◌+◌, ◌<◌, ◌≤◌, ◌≡◌, ◌≢◌, refl, arith, inl}
use hcfs.Base.Tables.{update}
use hcfs.Base.Family.{sum_below, sum-update, sum-constant, weight-le_sum}
use hcfs.SuperBlock.Locks.{
  Locks, Pc, outside, Move, System, init, Reach, at_start, turn, wait_exclusive, wait_cr,
  wait_share, count_more, release_wait_cr, refuse, uncount, post_share, keep_share, exclusive_wait,
  exclusive_wait_share,
}
use hcfs.SuperBlock.Locks.Inv.{
  has_exclusive, is_exclusive, has_cr, has_share, is_uncounted, is_counted, is_refused, Inv,
}

-- What a move asks of the state.
abbrev Asked : {m m' : Locks} {p p' : Pc} → Move m p m' p' → Type 0
Asked {m} (wait_exclusive _) = 0 < m.exclusive_lock_sem
Asked {m} (wait_cr _) = 0 < m.share_cr_lock_sem
Asked {m} (wait_share _ _) = (m.share_counter ≡ 0) × (0 < m.share_lock_sem)
Asked {m} (count_more _) = m.share_counter ≢ 0
Asked {m} (release_wait_cr _) = 0 < m.share_cr_lock_sem
Asked {m} (refuse _) = m.share_counter ≡ 0
Asked {m} (uncount _) = m.share_counter ≢ 0
Asked {m} (post_share _) = m.share_counter ≡ 0
Asked {m} (keep_share _) = m.share_counter ≢ 0
Asked {m} (exclusive_wait _) = 0 < m.exclusive_lock_sem
Asked {m} (exclusive_wait_share _) = 0 < m.share_lock_sem
Asked _ = Unit

asked : {m m' : Locks} {p p' : Pc} (mv : Move m p m' p') → Asked mv
asked (wait_exclusive g) = g
asked (wait_cr g) = g
asked (wait_share g k) = (g, k)
asked (count_more g) = g
asked (release_wait_cr g) = g
asked (refuse g) = g
asked (uncount g) = g
asked (post_share g) = g
asked (keep_share g) = g
asked (exclusive_wait g) = g
asked (exclusive_wait_share g) = g
asked _ = tt

module _ {n : ℕ} {m : Locks} {pc : ℕ → Pc} (inv : Inv n m pc) (i : ℕ) where
  -- The sum of a weight when thread `i` goes from `p` to `p'`.
  abbrev Moved : (Pc → ℕ) → (p p' : Pc) → Type 0
  Moved w p p' = sum_below w n (update pc i p') + w p ≡ sum_below w n pc + w p'

  record Mover (p p' : Pc) : Type 0 where
    exclusives : Moved has_exclusive p p'
    exclusive : Moved is_exclusive p p'
    crs : Moved has_cr p p'
    shares : Moved has_share p p'
    uncounteds : Moved is_uncounted p p'
    counteds : Moved is_counted p p'
    counts : is_counted p ≤ sum_below is_counted n pc
    refuseds : Moved is_refused p p'

  mover : i < n → (p' : Pc) → Mover (pc i) p'
  mover lt p' = record {
    exclusives = sum-update has_exclusive n pc i p' lt;
    exclusive = sum-update is_exclusive n pc i p' lt;
    crs = sum-update has_cr n pc i p' lt;
    shares = sum-update has_share n pc i p' lt;
    uncounteds = sum-update is_uncounted n pc i p' lt;
    counteds = sum-update is_counted n pc i p' lt;
    counts = weight-le_sum is_counted n pc i lt;
    refuseds = sum-update is_refused n pc i p' lt;
  }

  move : {p p' : Pc} {m' : Locks} → Move m p m' p' → Mover p p' → Inv n m' (update pc i p')
  move (wait_exclusive g) f = record {
    exclusives = omega (arith, g, inv.exclusives, f.exclusives, f.exclusive);
    crs = omega (arith, inv.crs, f.crs, f.shares, f.uncounteds);
    number = omega (arith, inv.number, f.counteds);
    taken = ground (arith, inv.taken, f.exclusive, f.shares, f.uncounteds);
    none_refused = omega (arith, inv.none_refused, f.refuseds);
  }
  move mv f = record {
    exclusives = ground (arith, asked mv, inv.exclusives, f.exclusives, f.exclusive);
    crs = ground (arith, asked mv, inv.crs, f.crs, f.shares, f.uncounteds);
    number = ground (arith, asked mv, inv.number, f.counteds);
    taken = ground (
      arith,
      asked mv,
      inv.taken,
      inv.number,
      inv.crs,
      f.crs,
      f.exclusive,
      f.shares,
      f.uncounteds,
      f.counteds,
      f.counts,
    );
    none_refused = ground (arith, asked mv, inv.none_refused, inv.number, f.refuseds, f.counts);
  }

  pub Move-Inv : {p' : Pc} {m' : Locks} → i < n → Move m (pc i) m' p' → Inv n m' (update pc i p')
  Move-Inv {p'} lt mv = move mv (mover lt p')

init-Inv : (n : ℕ) → Inv n init.locks init.pc
init-Inv n = record {
  exclusives = omega (arith, none has_exclusive refl, none is_exclusive refl);
  crs = omega (arith, none has_cr refl, none has_share refl, none is_uncounted refl);
  number = omega (arith, none is_counted refl);
  taken =
      inl
        (refl, omega (arith, none is_exclusive refl, none has_share refl, none is_uncounted refl));
  none_refused = none is_refused refl;
}
  where
    none : (w : Pc → ℕ) → w outside ≡ 0 → sum_below w n (λ _. outside) ≡ 0
    none w e = sum-constant w n outside e

pub Reach-Inv : {n : ℕ} {s : System} → Reach n s → Inv n s.locks s.pc
Reach-Inv {n} at_start = init-Inv n
Reach-Inv (turn i r lt mv) = Move-Inv (Reach-Inv r) i lt mv
