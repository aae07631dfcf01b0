-- ===== src/HashList/Locks/Moves.antt =====
-- A move of thread `i` keeps what the semaphores count.
use hcfs.Base.{ℕ, ◌+◌, ◌<◌, ◌≤◌, ◌≡◌, ◌≢◌, refl, arith, inl}
use hcfs.Base.Tables.{update}
use hcfs.Base.Family.{sum_below, sum-update, sum-bounded, sum-constant}
use hcfs.HashList.Locks.{
  Locks, Pc, Move, System, init, Reach, at_start, turn, outside, wait_bucket, wait_table,
  wait_shared, confiscate, count_more, unlock_wait_shared, give_back, keep_confiscated,
  global_wait_table, global_wait_can,
}
use hcfs.HashList.Locks.Inv.{
  has_table, is_global, has_shared, has_can, is_uncounted, is_counted, has_bucket, max_threads,
  IsConfiscated, Inv,
}

-- What a move asks of the state.
abbrev Asked : {m m' : Locks} {p p' : Pc} → Move m p m' p' → Type 0
Asked {m} (wait_bucket {b} _) = 0 < m.bucket_sem b
Asked {m} (wait_table _) = 0 < m.table_sem
Asked {m} (wait_shared _) = 0 < m.shared_var_sem
Asked {m} (confiscate _ _) = (m.num_lock_bucket ≡ 0) × (0 < m.can_lock_table_sem)
Asked {m} (count_more _) = m.num_lock_bucket ≢ 0
Asked {m} (unlock_wait_shared _) = 0 < m.shared_var_sem
Asked {m} (give_back _) = m.num_lock_bucket ≡ 0
Asked {m} (keep_confiscated _) = m.num_lock_bucket ≢ 0
Asked {m} (global_wait_table _) = 0 < m.table_sem
Asked {m} (global_wait_can _) = 0 < m.can_lock_table_sem
Asked _ = Unit

asked : {m m' : Locks} {p p' : Pc} (mv : Move m p m' p') → Asked mv
asked (wait_bucket g) = g
asked (wait_table g) = g
asked (wait_shared g) = g
asked (confiscate g k) = (g, k)
asked (count_more g) = g
asked (unlock_wait_shared g) = g
asked (give_back g) = g
asked (keep_confiscated g) = g
asked (global_wait_table g) = g
asked (global_wait_can g) = g
asked _ = tt

module _ {n : ℕ} {m : Locks} {pc : ℕ → Pc} (inv : Inv n m pc) (i : ℕ) where
  -- Thread `i` goes from `p` to `p'`. A match on `Move` needs the variable `p` for `pc i`.
  record Mover (p p' : Pc) : Type 0 where
    tables :
        sum_below has_table n (update pc i p') + has_table p
        ≡ sum_below has_table n pc + has_table p'
    globals :
        sum_below is_global n (update pc i p') + is_global p
        ≡ sum_below is_global n pc + is_global p'
    shareds :
        sum_below has_shared n (update pc i p') + has_shared p
        ≡ sum_below has_shared n pc + has_shared p'
    cans : sum_below has_can n (update pc i p') + has_can p ≡ sum_below has_can n pc + has_can p'
    uncounteds :
        sum_below is_uncounted n (update pc i p') + is_uncounted p
        ≡ sum_below is_uncounted n pc + is_uncounted p'
    counteds :
        sum_below is_counted n (update pc i p') + is_counted p
        ≡ sum_below is_counted n pc + is_counted p'
    few_counted : sum_below is_counted n (update pc i p') ≤ n
    buckets :
        (c : ℕ)
        → sum_below (has_bucket c) n (update pc i p') + has_bucket c p
          ≡ sum_below (has_bucket c) n pc + has_bucket c p'

  mover : i < n → (p' : Pc) → Mover (pc i) p'
  mover lt p' = record {
    tables = sum-update has_table n pc i p' lt;
    globals = sum-update is_global n pc i p' lt;
    shareds = sum-update has_shared n pc i p' lt;
    cans = sum-update has_can n pc i p' lt;
    uncounteds = sum-update is_uncounted n pc i p' lt;
    counteds = sum-update is_counted n pc i p' lt;
    few_counted = sum-bounded is_counted (λ p. ground arith) n _;
    buckets = λ c. sum-update (has_bucket c) n pc i p' lt;
  }

  Move-table :
      {p p' : Pc} {m' : Locks}
      → Move m p m' p'
      → Mover p p'
      → m'.table_sem
          + sum_below has_table n (update pc i p')
          + sum_below is_global n (update pc i p')
        ≡ 1
  Move-table (wait_bucket g) f = omega (arith, inv.table, f.tables, f.globals)
  Move-table mv f = ground (arith, asked mv, inv.table, f.tables, f.globals)

  Move-shared :
      {p p' : Pc} {m' : Locks}
      → Move m p m' p'
      → Mover p p'
      → m'.shared_var_sem
          + sum_below has_shared n (update pc i p')
          + sum_below has_can n (update pc i p')
          + sum_below is_uncounted n (update pc i p')
        ≡ 1
  Move-shared (wait_bucket g) f = omega (arith, inv.shared, f.shareds, f.cans, f.uncounteds)
  Move-shared mv f = ground (arith, asked mv, inv.shared, f.shareds, f.cans, f.uncounteds)

  Move-number :
      {p p' : Pc} {m' : Locks}
      → Move m p m' p'
      → Mover p p'
      → m'.num_lock_bucket ≡ sum_below is_counted n (update pc i p')
  Move-number (wait_bucket g) f = omega (arith, inv.number, f.counteds)
  Move-number mv f = ground (arith, asked mv, inv.few, inv.number, f.counteds, f.few_counted)

  Move-IsConfiscated :
      {p p' : Pc} {m' : Locks}
      → Move m p m' p'
      → Mover p p'
      → IsConfiscated m'
          (sum_below is_global n (update pc i p'))
          (sum_below has_can n (update pc i p'))
          (sum_below is_uncounted n (update pc i p'))
  Move-IsConfiscated (wait_bucket g) f =
      ground (arith, inv.confiscated, f.globals, f.cans, f.uncounteds)
  Move-IsConfiscated mv f = ground (
    arith,
    asked mv,
    inv.few,
    inv.number,
    inv.shared,
    inv.confiscated,
    f.counteds,
    f.few_counted,
    f.globals,
    f.shareds,
    f.cans,
    f.uncounteds,
  )

  Move-bucket :
      {p p' : Pc} {m' : Locks}
      → Move m p m' p'
      → Mover p p'
      → (c : ℕ) → m'.bucket_sem c + sum_below (has_bucket c) n (update pc i p') ≡ 1
  Move-bucket (wait_bucket g) f c = ground (arith, inv.bucket c, f.buckets c)
  Move-bucket mv f c = ground (arith, asked mv, inv.bucket c, f.buckets c)

  Move-Inv : {p' : Pc} {m' : Locks} → i < n → Move m (pc i) m' p' → Inv n m' (update pc i p')
  Move-Inv {p'} lt mv = record {
    few = inv.few;
    table = Move-table mv f;
    shared = Move-shared mv f;
    number = Move-number mv f;
    confiscated = Move-IsConfiscated mv f;
    bucket = Move-bucket mv f;
  }
    where
      f : Mover (pc i) p'
      f = mover lt p'

init-Inv : (n : ℕ) → n < max_threads → Inv n init.locks init.pc
init-Inv n few = record {
  few = few;
  table =
      omega (arith, sum-constant has_table n outside refl, sum-constant is_global n outside refl);
  shared = omega (
    arith,
    sum-constant has_shared n outside refl,
    sum-constant has_can n outside refl,
    sum-constant is_uncounted n outside refl,
  );
  number = omega (arith, sum-constant is_counted n outside refl);
  confiscated = inl (
    refl,
    omega (
      arith,
      sum-constant is_global n outside refl,
      sum-constant has_can n outside refl,
      sum-constant is_uncounted n outside refl,
    ),
  );
  bucket = λ c. omega (arith, sum-constant (has_bucket c) n outside refl);
}

pub Reach-Inv : {n : ℕ} {s : System} → n < max_threads → Reach n s → Inv n s.locks s.pc
Reach-Inv {n} few at_start = init-Inv n few
Reach-Inv few (turn i r lt mv) = Move-Inv (Reach-Inv few r) i lt mv
