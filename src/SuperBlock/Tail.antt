-- ===== src/SuperBlock/Tail.antt =====
-- On a sound super block the test of the last two dirty entries passes, so `ll_enqueue` mends nothing.
use hcfs.Base.{ℕ, ◌≡◌, true, false, List, ◌==◌, has, inl, inr, Bool-cases, ==_iff}
use hcfs.Queue.Neighbours.{IsQueue-cases, IsQueue-back, IsQueue-nonzero}
use hcfs.Queue.Chain.{Chain-member}
use hcfs.SuperBlock.State.{SuperBlock, SuperBlockEntry, no_ll, is_dirty}
use hcfs.SuperBlock.Io.{ok, ◌>>=◌}
use hcfs.SuperBlock.Steps.{read-ok}
use hcfs.SuperBlock.Io.{read_super_block_entry}
use hcfs.SuperBlock.StatusQueue.Dequeue.{status_eq}
use hcfs.SuperBlock.StatusQueue.Enqueue.{tail_is_broken, mend_tail}
use hcfs.SuperBlock.Invariant.{Holds, IsQuiet, view, dirty_links}

module _ (s : SuperBlock) (e : SuperBlockEntry) where
  tail-single :
      read_super_block_entry s.head.last_dirty_inode s ≡ ok e s
      → e.util_ll_next ≡ 0
      → e.util_ll_prev ≡ 0
      → tail_is_broken s ≡ ok false s
  unfolding tail_is_broken
  tail-single r on back = rw (r, ◌>>=◌, on, back)

  tail-second :
      (d : SuperBlockEntry)
      → read_super_block_entry s.head.last_dirty_inode s ≡ ok e s
      → e.util_ll_next ≡ 0
      → (e.util_ll_prev == 0) ≡ false
      → read_super_block_entry e.util_ll_prev s ≡ ok d s
      → d.util_ll_next ≡ s.head.last_dirty_inode
      → tail_is_broken s ≡ ok false s
  unfolding tail_is_broken
  tail-second d r on back r2 known =
      rw (r, ◌>>=◌, on, back, r2, ◌>>=◌, (==_iff d.util_ll_next s.head.last_dirty_inode).1 known)

module _ (s : SuperBlock) (ino : ℕ) (ds ts ps : List ℕ) (quiet : IsQuiet s)
    (h : Holds (view s ino) s.head s.num_entries ds ts ps) (out : s.this_entry.status ≡ no_ll) where
  -- A queued inode is another one.
  pub dirty_ne : (i : ℕ) → has i ds ≡ true → (ino == i) ≡ false
  dirty_ne i inside = elim (Bool-cases (ino == i)) [
    | inl e ↦
        let m : status_eq (view s ino i).status is_dirty ≡ true =
          Chain-member (λ j. dirty_links (view s ino j)) 0 ds i h.dirty_queue.chain inside in
        let m' : status_eq s.this_entry.status is_dirty ≡ true = rw e at m in cc (rw out at m')
    | inr e ↦ e
  ]

  pub dirty_member : (i : ℕ) → has i ds ≡ true → (dirty_links (view s ino i)).member ≡ true
  dirty_member i = Chain-member (λ j. dirty_links (view s ino j)) 0 ds i h.dirty_queue.chain

  pub read_dirty : (i : ℕ) → has i ds ≡ true → read_super_block_entry i s ≡ ok (s.entries i) s
  read_dirty i inside =
      read-ok s quiet.io i (h.dirty_in_file i inside)
        (IsQueue-nonzero _ _ _ ds h.dirty_queue i inside)

  pub tail_is_broken-ok : (s.head.first_dirty_inode == 0) ≡ false → tail_is_broken s ≡ ok false s
  unfolding tail_is_broken
  tail_is_broken-ok ne = elim (IsQueue-cases _ _ _ ds h.dirty_queue) [
    | inl empty ↦ cc (rw empty.1 at ne)
    | inr (_, inside, no_next) ↦
        elim (IsQueue-back _ _ _ ds h.dirty_queue last (dirty_member last inside)) [
          | inl (back, _) ↦
              tail-single s (s.entries last) (read_dirty last inside)
                (rw (dirty_ne last inside) at no_next) (rw (dirty_ne last inside) at back)
          | inr (before, known) ↦
              let p = (s.entries last).util_ll_prev in
              let p_in : has p ds ≡ true = rw (dirty_ne last inside) at before in
              let p_next : (s.entries p).util_ll_next ≡ last =
                rw (dirty_ne last inside, dirty_ne p p_in) at known in
              tail-second s (s.entries last) (s.entries p) (read_dirty last inside)
                (rw (dirty_ne last inside) at no_next)
                (IsQueue-nonzero _ _ _ ds h.dirty_queue p p_in) (read_dirty p p_in) p_next
        ]
  ]
    where
      open s.head use {last_dirty_inode as last}

  pub mend_tail-ok : (s.head.first_dirty_inode == 0) ≡ false → mend_tail s ≡ ok tt s
  unfolding mend_tail
  mend_tail-ok ne = rw (tail_is_broken-ok ne, ◌>>=◌)
