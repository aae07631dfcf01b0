-- ===== src/SuperBlock/Pinned.antt =====
-- The pin queue stays sound when an inode joins it.
use hcfs.Base.{
  ℕ, ◌≡◌, refl, Bool, true, false, List, [], ◌∷◌, ◌++◌, ◌==◌, has, inl, inr, Bool-cases, ==_iff,
  sym, ◌∙◌, ltb, if◌then◌else◌, length, length-append, arith, ap, subst,
}
use hcfs.Base.Int.{pos, ◌+ℤ◌, pos_add_one}
use hcfs.Base.Tables.{update}
use hcfs.Queue.Chain.{Chain-member}
use hcfs.Queue.Neighbours.{IsQueue-cases, IsQueue-nonzero}
use hcfs.Queue.Changes.{IsQueue-append, IsQueue-frame}
use hcfs.SuperBlock.State.{SuperBlock, SuperBlockEntry, st_unpin}
use hcfs.SuperBlock.Io.{M, ok}
use hcfs.SuperBlock.PinQueue.{pin_first, pin_next, pin_ll_enqueue}
use hcfs.SuperBlock.Invariant.{Holds, IsQuiet, IsSound, view, dirty_links, delete_links, pin_links}
use hcfs.SuperBlock.Enqueue.{has-append_other, nonzero}
use hcfs.SuperBlock.PinEnqueue.{
  pinning, pin_table, pin_at, dirty_at, delete_at, pin_member_at, pin_own, dirty_own, delete_own,
  first_pinned, next_pinned, pin_counted, pin_first-ok, pin_next-ok, enqueue-parts,
}

-- The branch that a test takes.
taken : (b : Bool) (m n : M (Unit {0})) (s : SuperBlock) → b ≡ true → (if b then m else n) s ≡ m s
taken b m n s e = rw e

not_taken :
    (b : Bool) (m n : M (Unit {0})) (s : SuperBlock) → b ≡ false → (if b then m else n) s ≡ n s
not_taken b m n s e = rw e

module _ (s : SuperBlock) (ino : ℕ) (ds ts ps : List ℕ) (quiet : IsQuiet s)
    (h : Holds (view s ino) s.head s.num_entries ds ts ps)
    (unpinned : s.this_entry.pin_status ≡ st_unpin) (nz : (ino == 0) ≡ false)
    (in_file : ltb s.num_entries ino ≡ false) where
  own_eq : (ino == ino) ≡ true
  own_eq = (==_iff ino ino).1 refl

  own_out : (pin_links (view s ino ino)).member ≡ false
  own_out = rw (own_eq, unpinned)

  pinned_ne : (i : ℕ) → has i ps ≡ true → (ino == i) ≡ false
  pinned_ne i inside = elim (Bool-cases (ino == i)) [
    | inl e ↦
        let m : (pin_links (view s ino i)).member ≡ true =
          Chain-member (λ j. pin_links (view s ino j)) 0 ps i h.pin_queue.chain inside in
        let m' : (pin_links s.this_entry).member ≡ true = rw e at m in cc (rw unpinned at m')
    | inr e ↦ e
  ]

  grown_in_file : (i : ℕ) → has i (ps ++ (ino ∷ [])) ≡ true → ltb s.num_entries i ≡ false
  grown_in_file i inside = elim (Bool-cases (ino == i)) [
    | inl e ↦ let ino_eq : ino ≡ i = (==_iff ino i).0 e in rw ino_eq at in_file
    | inr e ↦ h.pinned_in_file i (has-append_other i ino ps e inside)
  ]

  one_more : s.head.num_pinning_inodes +ℤ pos 1 ≡ pos (length (ps ++ (ino ∷ [])))
  one_more = rw (h.num_pinned, pos_add_one (length ps), length-append ps (ino ∷ []))

  member_if :
      (i : ℕ)
      → (if i == s.head.last_pin_inode
          then record (pin_links (view s ino i)) { next = ino }
          else pin_links (view s ino i)).member
        ≡ (pin_links (view s ino i)).member
  member_if i = ground arith

  IsSound-next :
      (s.head.first_pin_inode == 0) ≡ false
      → has s.head.last_pin_inode ps ≡ true
      → IsSound (pin_counted (next_pinned s ino)) ds ts (ps ++ (ino ∷ []))
  IsSound-next ne inside = record {
    dirty_queue =
        IsQueue-frame _ (λ i. dirty_links (table i)) _ _ ds h.dirty_queue
          (λ i _. dirty_at s.entries s.this_entry ino s.head.last_pin_inode i)
          (λ i m.
            ap (λ l. l.member) (sym (dirty_at s.entries s.this_entry ino s.head.last_pin_inode i))
            ∙ m);
    delete_queue =
        IsQueue-frame _ (λ i. delete_links (table i)) _ _ ts h.delete_queue
          (λ i _. delete_at s.entries s.this_entry ino s.head.last_pin_inode i)
          (λ i m.
            ap (λ l. l.member) (sym (delete_at s.entries s.this_entry ino s.head.last_pin_inode i))
            ∙ m);
    pin_queue =
        IsQueue-append (λ i. pin_links (view s ino i)) (λ i. pin_links (table i)) ino
          s.head.first_pin_inode s.head.last_pin_inode _ _ ps h.pin_queue (nonzero ino nz) own_out
          (λ i e. pin_member_at s.entries s.this_entry ino s.head.last_pin_inode i e)
          (λ i _ e. pin_at s.entries s.this_entry ino s.head.last_pin_inode i e)
          (pin_own s.entries s.this_entry ino s.head.last_pin_inode
            (pinned_ne s.head.last_pin_inode inside))
          (rw ne) refl;
    num_dirty = h.num_dirty;
    num_deleted = h.num_deleted;
    num_pinned = one_more;
    dirty_in_file = h.dirty_in_file;
    deleted_in_file = h.deleted_in_file;
    pinned_in_file = grown_in_file;
  }
    where
      table : ℕ → SuperBlockEntry
      table = pin_table s.entries s.this_entry ino s.head.last_pin_inode

  IsSound-first :
      s.head.first_pin_inode ≡ 0
      → s.head.last_pin_inode ≡ 0
      → ps ≡ []
      → IsSound (pin_counted (first_pinned s ino)) ds ts (ps ++ (ino ∷ []))
  IsSound-first none_yet no_last nil = record {
    dirty_queue =
        IsQueue-frame _ (λ i. dirty_links (table i)) _ _ ds h.dirty_queue
          (λ i _. dirty_own s.entries s.this_entry ino i)
          (λ i m. ap (λ l. l.member) (sym (dirty_own s.entries s.this_entry ino i)) ∙ m);
    delete_queue =
        IsQueue-frame _ (λ i. delete_links (table i)) _ _ ts h.delete_queue
          (λ i _. delete_own s.entries s.this_entry ino i)
          (λ i m. ap (λ l. l.member) (sym (delete_own s.entries s.this_entry ino i)) ∙ m);
    pin_queue =
        IsQueue-append (λ i. pin_links (view s ino i)) (λ i. pin_links (table i)) ino
          s.head.first_pin_inode s.head.last_pin_inode _ _ ps h.pin_queue (nonzero ino nz) own_out
          (λ i e. rw e) (λ i inside e. cc (empty_has i inside)) (rw (own_eq, no_last)) (rw none_yet)
          refl;
    num_dirty = h.num_dirty;
    num_deleted = h.num_deleted;
    num_pinned = one_more;
    dirty_in_file = h.dirty_in_file;
    deleted_in_file = h.deleted_in_file;
    pinned_in_file = grown_in_file;
  }
    where
      table : ℕ → SuperBlockEntry
      table = update s.entries ino (pinning s.this_entry 0)

      empty_has : (i : ℕ) → has i ps ≡ true → false ≡ true
      empty_has i inside = subst (λ l. has i l ≡ true) nil inside

  -- With the entry of an unpinned inode in memory and the queues of a sound super block, without
  -- failing reads and writes, `pin_ll_enqueue` returns without an error; the super block is sound,
  -- its pin queue has the inode as its last one and the same others, the other queues are as
  -- before, and the head is on disk.
  pub pin_ll_enqueue-IsSound :
      (t : SuperBlock) × (pin_ll_enqueue ino s ≡ ok tt t)
      × IsSound t ds ts (ps ++ (ino ∷ []))
      × (t.disk_head ≡ t.head)
  pin_ll_enqueue-IsSound = elim (IsQueue-cases _ _ _ ps h.pin_queue) [
    | inl (nil, none_yet, no_last) ↦ (
      pin_counted (first_pinned s ino),
      enqueue-parts s ino quiet.io in_file (first_pinned s ino) unpinned
          (taken (s.head.last_pin_inode == 0) (pin_first ino) (pin_next ino) s
              ((==_iff s.head.last_pin_inode 0).1 no_last)
            ∙ pin_first-ok s ino quiet.io in_file)
          quiet.io,
      IsSound-first none_yet no_last nil,
      refl,
    )
    | inr (ne, inside, _) ↦
        let last_nz : (s.head.last_pin_inode == 0) ≡ false =
          IsQueue-nonzero _ _ _ ps h.pin_queue s.head.last_pin_inode inside in
        (
          pin_counted (next_pinned s ino),
          enqueue-parts s ino quiet.io in_file (next_pinned s ino) unpinned
              (not_taken (s.head.last_pin_inode == 0) (pin_first ino) (pin_next ino) s last_nz
                ∙ pin_next-ok s ino quiet.io in_file last_nz
                    (h.pinned_in_file s.head.last_pin_inode inside))
              quiet.io,
          IsSound-next ne inside,
          refl,
        )
  ]
