-- ===== src/SuperBlock/JoinDirty.antt =====
-- `ll_enqueue` puts an inode that is on no list at the end of the dirty queue.
use hcfs.Base.{
  ℕ, ◌≡◌, refl, true, false, List, [], ◌∷◌, ◌++◌, ◌==◌, inl, inr, Bool-cases, ==_iff, ◌∙◌, ltb,
  if◌then◌else◌, arith,
}
use hcfs.Base.Int.{pos, is_zero_ℤ}
use hcfs.SuperBlock.State.{SuperBlock, no_ll, is_dirty}
use hcfs.SuperBlock.Io.{ok, ◌>>=◌}
use hcfs.SuperBlock.Stats.{change_systemdata, change_system_meta, being_recovered_later}
use hcfs.SuperBlock.Rebuild.{wake_sync}
use hcfs.SuperBlock.StatusQueue.Dequeue.{status_eq}
use hcfs.SuperBlock.StatusQueue.Enqueue.{
  first_dirty, next_dirty, count_dirty, set_status, join_dirty, join, ll_enqueue,
}
use hcfs.SuperBlock.Invariant.{Holds, IsQuiet, view, Holds-frame}
use hcfs.SuperBlock.Enqueue.{alone, behind, listed, next_dirty-ok, Holds-alone, Holds-behind}

-- `count_dirty`: the size of the meta file counts as dirty.
unfoldable pub counted : ℕ → SuperBlock → SuperBlock
counted ino s = if is_zero_ℤ (s.meta_size ino) then s else record s {
  this_entry = record s.this_entry { dirty_meta_size = s.meta_size ino };
  systemdata =
      change_systemdata (pos 0) (pos 0) (pos 0) (pos 0) (s.meta_size ino) (pos 0) s.systemdata;
}

count_dirty-ok : (ino : ℕ) (s : SuperBlock) → count_dirty ino s ≡ ok tt (counted ino s)
unfolding count_dirty change_system_meta counted
count_dirty-ok ino s = elim (Bool-cases (is_zero_ℤ (s.meta_size ino))) [
  | inl e ↦ rw e
  | inr e ↦ rw e
]

unfoldable pub joined : SuperBlock → ℕ → SuperBlock
joined s ino =
    listed (counted ino (if s.head.first_dirty_inode == 0 then alone s ino else behind s ino))

Holds-counted :
    (t : SuperBlock) (ino : ℕ) (ds ts ps : List ℕ)
    → Holds (view (listed t) ino) t.head t.num_entries ds ts ps
    → Holds
        (view (listed (counted ino t)) ino)
        (counted ino t).head
        (counted ino t).num_entries
        ds
        ts
        ps
unfolding counted
Holds-counted t ino ds ts ps h = elim (Bool-cases (is_zero_ℤ (t.meta_size ino))) [
  | inl e ↦ rw e h
  | inr e ↦
      rw e
        (Holds-frame _ _ _ _ ds ts ps h (λ i. ground arith) (λ i. ground arith) (λ i. ground arith))
]

-- What `ll_enqueue` does with an entry that is on no list.
enqueue-join :
    (ino : ℕ) (s : SuperBlock)
    → status_eq s.this_entry.status is_dirty ≡ false
    → status_eq s.this_entry.status no_ll ≡ true
    → ll_enqueue ino is_dirty s ≡ join_dirty ino s
unfolding ll_enqueue join
enqueue-join ino s e f = rw (e, f)

join-parts :
    (ino : ℕ) (s t : SuperBlock)
    → being_recovered_later s ino ≡ false
    → (if s.head.first_dirty_inode == 0 then first_dirty ino else next_dirty ino) s ≡ ok tt t
    → join_dirty ino s ≡ ok tt (listed (counted ino t))
unfolding join_dirty set_status
join-parts ino s t e p = rw (e, p, ◌>>=◌, count_dirty-ok ino t, ◌>>=◌)

first_dirty-ok : (ino : ℕ) (s : SuperBlock) → first_dirty ino s ≡ ok tt (alone s ino)
unfolding first_dirty wake_sync
first_dirty-ok ino s = refl

-- Behind the last dirty inode, or alone.
unfoldable pub linked : SuperBlock → ℕ → SuperBlock
linked s ino = if s.head.first_dirty_inode == 0 then alone s ino else behind s ino

module _ (s : SuperBlock) (ino : ℕ) (ds ts ps : List ℕ) (quiet : IsQuiet s)
    (h : Holds (view s ino) s.head s.num_entries ds ts ps) (out : s.this_entry.status ≡ no_ll)
    (nz : (ino == 0) ≡ false) where
  linked-ok :
      (if s.head.first_dirty_inode == 0 then first_dirty ino else next_dirty ino) s
      ≡ ok tt (linked s ino)
  unfolding linked
  linked-ok = elim (Bool-cases (s.head.first_dirty_inode == 0)) [
    | inl e ↦ rw e (first_dirty-ok ino s)
    | inr e ↦ rw e (next_dirty-ok s ino ds ts ps quiet h out nz e)
  ]

  pub ll_enqueue-joined : ll_enqueue ino is_dirty s ≡ ok tt (joined s ino)
  unfolding joined linked being_recovered_later
  ll_enqueue-joined =
      enqueue-join ino s (rw out) (rw out)
      ∙ join-parts ino s (linked s ino) (rw quiet.no_recovery) linked-ok

  pub Holds-joined :
      ltb s.num_entries ino ≡ false
      → Holds
          (view (joined s ino) ino)
          (joined s ino).head
          (joined s ino).num_entries
          (ds ++ (ino ∷ []))
          ts
          ps
  unfolding joined
  Holds-joined in_file = elim (Bool-cases (s.head.first_dirty_inode == 0)) [
    | inl e ↦ rw e (
        Holds-counted (alone s ino) ino _ ts ps
          (Holds-alone s ino ds ts ps quiet h out nz in_file ((==_iff _ 0).0 e)))
    | inr e ↦ rw e (
        Holds-counted (behind s ino) ino _ ts ps
          (Holds-behind s ino ds ts ps quiet h out nz in_file e))
  ]
