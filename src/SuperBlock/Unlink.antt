-- ===== src/SuperBlock/Unlink.antt =====
-- What `ll_dequeue` does step by step, where the neighbours of the inode know it.
use hcfs.Base.{
  ℕ, ◌≡◌, refl, false, [], ◌==◌, ltb, if◌then◌else◌, Option, none, some, inl, inr, ◌⊎◌, ==_iff,
  Bool, Bool-cases, ◌∙◌,
}
use hcfs.Base.Int.{pos, ◌-ℤ◌}
use hcfs.Base.Tables.{update}
use hcfs.SuperBlock.State.{SuperBlock, SuperBlockEntry, Status, no_ll, is_dirty}
use hcfs.SuperBlock.Io.{M, ok, pure, ◌>>=◌, ◌>>◌}
use hcfs.SuperBlock.Steps.{read-ok, write-ok}
use hcfs.SuperBlock.Stats.{change_systemdata, change_system_meta, being_recovered_later}
use hcfs.SuperBlock.StatusQueue.Dequeue.{
  check_next, check_prev, mend_dirty, known_or_read, set_last, set_first, unlink_next, unlink_prev,
  count_out, leave_list, unlink, dequeue_dirty, dequeue_from, ll_dequeue, change_dirty_cache,
}

-- The entry `i`, where there is one.
abbrev pub known : (ℕ → SuperBlockEntry) → ℕ → Option SuperBlockEntry
known f i = if i == 0 then none else some (f i)

-- The entry `i` can be read and written.
abbrev pub InFile : SuperBlock → ℕ → Type 0
InFile s i = ((i == 0) ≡ false) × (ltb s.num_entries i ≡ false)

unfoldable pub without_next : SuperBlock → SuperBlock
without_next s =
    let e = s.this_entry in
    if e.util_ll_next == 0
    then record s { head = record s.head { last_dirty_inode = e.util_ll_prev } }
    else record s {
      entries =
          update s.entries e.util_ll_next
            (record (s.entries e.util_ll_next) { util_ll_prev = e.util_ll_prev });
    }

unfoldable pub without_prev : (ℕ → SuperBlockEntry) → SuperBlock → SuperBlock
without_prev f s =
    let e = s.this_entry in
    if e.util_ll_prev == 0
    then record s { head = record s.head { first_dirty_inode = e.util_ll_next } }
    else record s {
      entries =
          update s.entries e.util_ll_prev
            (record (f e.util_ll_prev) { util_ll_next = e.util_ll_next });
    }

unfoldable pub counted_out : SuperBlock → SuperBlock
counted_out s = record s {
  head = record s.head { num_dirty = s.head.num_dirty -ℤ pos 1 };
  systemdata =
      change_systemdata (pos 0) (pos 0) (pos 0) (pos 0) (pos 0 -ℤ s.this_entry.dirty_meta_size)
        (pos 0) s.systemdata;
  this_entry = record s.this_entry {
    dirty_meta_size = pos 0;
    status = no_ll;
    util_ll_next = 0;
    util_ll_prev = 0;
  };
}

module _ (s : SuperBlock) (ino : ℕ) (io : s.outcomes ≡ []) where
  abbrev pub NextKnows : Type 0
  NextKnows =
      ((s.this_entry.util_ll_next ≡ 0) × (s.head.last_dirty_inode ≡ ino))
      ⊎ (InFile s s.this_entry.util_ll_next
          × ((s.entries s.this_entry.util_ll_next).util_ll_prev ≡ ino))

  abbrev pub PrevKnows : Type 0
  PrevKnows =
      ((s.this_entry.util_ll_prev ≡ 0) × (s.head.first_dirty_inode ≡ ino))
      ⊎ (InFile s s.this_entry.util_ll_prev
          × ((s.entries s.this_entry.util_ll_prev).util_ll_next ≡ ino))

  check_next-ok :
      NextKnows → check_next ino s ≡ ok (false, known s.entries s.this_entry.util_ll_next) s
  unfolding check_next
  check_next-ok (inl (e, l)) = rw (e, (==_iff s.head.last_dirty_inode ino).1 l)
  check_next-ok (inr ((nz, in_file), k)) = rw (
    nz,
    read-ok s io s.this_entry.util_ll_next in_file nz,
    ◌>>=◌,
    (==_iff (s.entries s.this_entry.util_ll_next).util_ll_prev ino).1 k,
  )

  check_prev-ok :
      PrevKnows → check_prev ino s ≡ ok (false, known s.entries s.this_entry.util_ll_prev) s
  unfolding check_prev
  check_prev-ok (inl (e, l)) = rw (e, (==_iff s.head.first_dirty_inode ino).1 l)
  check_prev-ok (inr ((nz, in_file), k)) = rw (
    nz,
    read-ok s io s.this_entry.util_ll_prev in_file nz,
    ◌>>=◌,
    (==_iff (s.entries s.this_entry.util_ll_prev).util_ll_next ino).1 k,
  )

  mend_dirty-ok :
      NextKnows
      → PrevKnows
      → mend_dirty ino s
        ≡ ok
            (known s.entries s.this_entry.util_ll_next, known s.entries s.this_entry.util_ll_prev)
            s
  unfolding mend_dirty
  mend_dirty-ok n p = rw (check_next-ok n, ◌>>=◌, check_prev-ok p, ◌>>=◌)

unlink_next-ok :
    (s : SuperBlock)
    → s.outcomes ≡ []
    → (s.this_entry.util_ll_next ≡ 0) ⊎ InFile s s.this_entry.util_ll_next
    → unlink_next is_dirty (known s.entries s.this_entry.util_ll_next) s ≡ ok tt (without_next s)
unfolding unlink_next without_next set_last known_or_read
unlink_next-ok s io (inl e) = rw e
unlink_next-ok s io (inr (nz, in_file)) =
    rw (nz, ◌>>=◌, write-ok s io s.this_entry.util_ll_next in_file)

unlink_prev-ok :
    (f : ℕ → SuperBlockEntry) (s : SuperBlock)
    → s.outcomes ≡ []
    → (s.this_entry.util_ll_prev ≡ 0) ⊎ InFile s s.this_entry.util_ll_prev
    → unlink_prev is_dirty (known f s.this_entry.util_ll_prev) s ≡ ok tt (without_prev f s)
unfolding unlink_prev without_prev set_first known_or_read
unlink_prev-ok f s io (inl e) = rw e
unlink_prev-ok f s io (inr (nz, in_file)) =
    rw (nz, ◌>>=◌, write-ok s io s.this_entry.util_ll_prev in_file)

count-leave : (s : SuperBlock) → (do count_out is_dirty; leave_list) s ≡ ok tt (counted_out s)
unfolding count_out leave_list counted_out change_dirty_cache change_system_meta
count-leave s = refl

skip :
    (b : Bool) (m k : M (Unit {0})) (s : SuperBlock)
    → b ≡ false
    → ((if b then m else pure tt) >> k) s ≡ k s
skip b m k s e = rw e

from_dirty :
    (which : Status) (ino : ℕ) (s : SuperBlock)
    → which ≡ is_dirty
    → dequeue_from which ino s ≡ dequeue_dirty ino s
unfolding dequeue_from
from_dirty which ino s e = rw e

dequeue-calm :
    (ino : ℕ) (s : SuperBlock)
    → being_recovered_later s ino ≡ false
    → dequeue_dirty ino s ≡ (do neighbours ← mend_dirty ino; unlink is_dirty ino neighbours) s
unfolding dequeue_dirty
dequeue-calm ino s e = rw e

reachable :
    {A B : Type 0} (s : SuperBlock) (i : ℕ)
    → ((i ≡ 0) × A) ⊎ (InFile s i × B)
    → (i ≡ 0) ⊎ InFile s i
reachable s i (inl (none_there, _)) = inl none_there
reachable s i (inr (there, _)) = inr there

-- The whole of `ll_dequeue` on a dirty inode whose neighbours know it.
module _ (s : SuperBlock) (ino : ℕ) (io : s.outcomes ≡ []) where
  unlink_prev-without_next :
      (s.this_entry.util_ll_prev ≡ 0) ⊎ InFile s s.this_entry.util_ll_prev
      → unlink_prev is_dirty (known s.entries s.this_entry.util_ll_prev) (without_next s)
        ≡ ok tt (without_prev s.entries (without_next s))
  unfolding without_next
  unlink_prev-without_next p = elim (Bool-cases (s.this_entry.util_ll_next == 0)) [
    | inl e ↦ rw e (unlink_prev-ok s.entries _ io p)
    | inr e ↦ rw e (unlink_prev-ok s.entries _ io p)
  ]

  pub unlink-ok :
      s.sync_point_is_set ≡ false
      → (s.this_entry.util_ll_next ≡ 0) ⊎ InFile s s.this_entry.util_ll_next
      → (s.this_entry.util_ll_prev ≡ 0) ⊎ InFile s s.this_entry.util_ll_prev
      → unlink is_dirty ino
          (known s.entries s.this_entry.util_ll_next, known s.entries s.this_entry.util_ll_prev)
          s
        ≡ ok tt (counted_out (without_prev s.entries (without_next s)))
  unfolding unlink
  unlink-ok off n p =
      skip s.sync_point_is_set _ _ s off
      ∙ rw (unlink_next-ok s io n, ◌>>=◌, unlink_prev-without_next p, ◌>>=◌) (count-leave _)

  pub ll_dequeue-ok :
      s.this_entry.status ≡ is_dirty
      → s.recovery.is_ongoing ≡ false
      → s.sync_point_is_set ≡ false
      → NextKnows s ino io
      → PrevKnows s ino io
      → ll_dequeue ino s ≡ ok tt (counted_out (without_prev s.entries (without_next s)))
  unfolding ll_dequeue being_recovered_later
  ll_dequeue-ok dirty calm off n p =
      from_dirty s.this_entry.status ino s dirty
      ∙ dequeue-calm ino s (rw calm)
      ∙ rw (mend_dirty-ok s ino io n p, ◌>>=◌)
          (unlink-ok off (reachable s s.this_entry.util_ll_next n)
            (reachable s s.this_entry.util_ll_prev p))
