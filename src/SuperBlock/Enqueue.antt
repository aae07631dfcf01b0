-- ===== src/SuperBlock/Enqueue.antt =====
-- The two ways in which `ll_enqueue` links an inode that is on no list into the dirty queue.
use hcfs.Base.{
  ℕ, ◌≡◌, refl, true, false, List, [], ◌∷◌, ◌++◌, ◌==◌, has, inl, inr, Bool-cases, ==_iff, sym, ◌∙◌,
  ◌≢◌, ltb, if◌then◌else◌, length, arith, has-append, length-append, ap, subst,
}
use hcfs.Base.Int.{pos, ◌+ℤ◌, pos_add_one}
use hcfs.Base.Tables.{update}
use hcfs.Queue.Neighbours.{IsQueue-cases, IsQueue-nonzero}
use hcfs.Queue.Changes.{IsQueue-append, IsQueue-frame}
use hcfs.SuperBlock.State.{SuperBlock, SuperBlockEntry, no_ll, is_dirty}
use hcfs.SuperBlock.Io.{ok, ◌>>=◌}
use hcfs.SuperBlock.Steps.{read-ok, write-ok}
use hcfs.SuperBlock.Stats.{sem_check_and_release}
use hcfs.SuperBlock.Rebuild.{wake_sync}
use hcfs.SuperBlock.StatusQueue.Enqueue.{link_behind, next_dirty}
use hcfs.SuperBlock.Invariant.{Holds, IsQuiet, view, dirty_links, delete_links, pin_links}
use hcfs.SuperBlock.Tail.{dirty_ne, dirty_member, mend_tail-ok}
use hcfs.SuperBlock.Links.{
  is_dirty_of_eq, dirty_after, pin_after, delete_after, delete_before, delete_alone,
  delete_alone_back,
}

pub has-append_other :
    (i x : ℕ) (xs : List ℕ) → (x == i) ≡ false → has i (xs ++ (x ∷ [])) ≡ true → has i xs ≡ true
has-append_other i x xs ne h = ground (arith, has-append i xs (x ∷ []))

pub nonzero : (i : ℕ) → (i == 0) ≡ false → i ≢ 0
nonzero i h = ground arith

link_behind-ok :
    (s : SuperBlock) (last ino : ℕ)
    → s.outcomes ≡ []
    → (last == 0) ≡ false
    → ltb s.num_entries last ≡ false
    → link_behind last ino s
      ≡ ok tt (record s {
        entries = update s.entries last (record (s.entries last) { util_ll_next = ino });
      })
unfolding link_behind
link_behind-ok s last ino io nz in_file =
    rw (read-ok s io last in_file nz, ◌>>=◌, write-ok s io last in_file)

-- The super block with `ino` as the only dirty inode, and behind the last one.
abbrev pub alone : SuperBlock → ℕ → SuperBlock
alone s ino = record s {
  head = record s.head {
    first_dirty_inode = ino;
    last_dirty_inode = ino;
    num_dirty = s.head.num_dirty +ℤ pos 1;
  };
  this_entry = record s.this_entry { util_ll_next = 0; util_ll_prev = 0 };
  sync_wait = sem_check_and_release s.sync_wait;
}

abbrev pub listed : SuperBlock → SuperBlock
listed s = record s { this_entry = record s.this_entry { status = is_dirty } }

abbrev pub behind : SuperBlock → ℕ → SuperBlock
behind s ino = record s {
  head = record s.head { last_dirty_inode = ino; num_dirty = s.head.num_dirty +ℤ pos 1 };
  this_entry = record s.this_entry { util_ll_next = 0; util_ll_prev = s.head.last_dirty_inode };
  sync_wait = sem_check_and_release s.sync_wait;
  entries =
      update s.entries s.head.last_dirty_inode
        (record (s.entries s.head.last_dirty_inode) { util_ll_next = ino });
}

module _ (s : SuperBlock) (ino : ℕ) (ds ts ps : List ℕ) (quiet : IsQuiet s)
    (h : Holds (view s ino) s.head s.num_entries ds ts ps) (out : s.this_entry.status ≡ no_ll)
    (nz : (ino == 0) ≡ false) where
  last_in : (s.head.first_dirty_inode == 0) ≡ false → has s.head.last_dirty_inode ds ≡ true
  last_in ne = elim (IsQueue-cases _ _ _ ds h.dirty_queue) [
    | inl empty ↦ cc (rw empty.1 at ne)
    | inr (_, inside, _) ↦ inside
  ]

  pub next_dirty-ok :
      (s.head.first_dirty_inode == 0) ≡ false → next_dirty ino s ≡ ok tt (behind s ino)
  unfolding next_dirty wake_sync
  next_dirty-ok ne =
      rw (mend_tail-ok s ino ds ts ps quiet h out ne, ◌>>=◌)
        (link_behind-ok _ s.head.last_dirty_inode ino quiet.io
          (IsQueue-nonzero _ _ _ ds h.dirty_queue s.head.last_dirty_inode (last_in ne))
          (h.dirty_in_file s.head.last_dirty_inode (last_in ne)))

  module _ (in_file : ltb s.num_entries ino ≡ false) where
    grown_in_file : (i : ℕ) → has i (ds ++ (ino ∷ [])) ≡ true → ltb s.num_entries i ≡ false
    grown_in_file i inside = elim (Bool-cases (ino == i)) [
      | inl e ↦ let ino_eq : ino ≡ i = (==_iff ino i).0 e in rw ino_eq at in_file
      | inr e ↦ h.dirty_in_file i (has-append_other i ino ds e inside)
    ]

    pub Holds-behind :
        (s.head.first_dirty_inode == 0) ≡ false
        → Holds
            (view (listed (behind s ino)) ino)
            (behind s ino).head
            s.num_entries
            (ds ++ (ino ∷ []))
            ts
            ps
    Holds-behind ne = record {
      dirty_queue =
          IsQueue-append (λ i. dirty_links (view s ino i))
            (λ i. dirty_links (view (listed (behind s ino)) ino i)) ino s.head.first_dirty_inode
            last _ _ ds h.dirty_queue (nonzero ino nz) own_out
            (λ i e. ap (λ l. l.member) (dirty_after s.entries _ own ino last i e) ∙ member_if i)
            (λ i _ e. dirty_after s.entries s.this_entry own ino last i e) (rw own_eq) (rw ne) refl;
      delete_queue =
          IsQueue-frame _ (λ i. delete_links (view (listed (behind s ino)) ino i)) _ _ ts
            h.delete_queue (delete_after s.entries s.this_entry own ino last out refl last_is_dirty)
            (delete_before s.entries s.this_entry own ino last out refl last_is_dirty);
      pin_queue =
          IsQueue-frame _ (λ i. pin_links (view (listed (behind s ino)) ino i)) _ _ ps h.pin_queue
            (λ i _. pin_after s.entries s.this_entry own ino last i refl)
            (λ i m.
              ap (λ l. l.member) (sym (pin_after s.entries s.this_entry own ino last i refl)) ∙ m);
      num_dirty = counted_one_more;
      num_deleted = h.num_deleted;
      num_pinned = h.num_pinned;
      dirty_in_file = grown_in_file;
      deleted_in_file = h.deleted_in_file;
      pinned_in_file = h.pinned_in_file;
    }
      where
        open s.head use {last_dirty_inode as last}

        own : SuperBlockEntry
        own = (listed (behind s ino)).this_entry

        own_eq : (ino == ino) ≡ true
        own_eq = (==_iff ino ino).1 refl

        own_out : (dirty_links (view s ino ino)).member ≡ false
        own_out = rw (own_eq, out)

        member_if :
            (i : ℕ)
            → (if i == last
                then record (dirty_links (view s ino i)) { next = ino }
                else dirty_links (view s ino i)).member
              ≡ (dirty_links (view s ino i)).member
        member_if i = ground arith

        last_is_dirty : (s.entries last).status ≡ is_dirty
        last_is_dirty = is_dirty_of_eq (s.entries last).status (
            rw (dirty_ne s ino ds ts ps quiet h out last (last_in ne)) at
              (dirty_member s ino ds ts ps quiet h out last (last_in ne)))

        counted_one_more : s.head.num_dirty +ℤ pos 1 ≡ pos (length (ds ++ (ino ∷ [])))
        counted_one_more = rw (h.num_dirty, pos_add_one (length ds), length-append ds (ino ∷ []))

    pub Holds-alone :
        s.head.first_dirty_inode ≡ 0
        → Holds
            (view (listed (alone s ino)) ino)
            (alone s ino).head
            s.num_entries
            (ds ++ (ino ∷ []))
            ts
            ps
    Holds-alone none_yet = record {
      dirty_queue =
          IsQueue-append (λ i. dirty_links (view s ino i))
            (λ i. dirty_links (view (listed (alone s ino)) ino i)) ino s.head.first_dirty_inode
            s.head.last_dirty_inode _ _ ds h.dirty_queue (nonzero ino nz) (rw (own_eq, out))
            (λ i e. rw e) (λ i inside e. cc (empty_has i inside)) (rw (own_eq, last_zero))
            (rw none_yet) refl;
      delete_queue =
          IsQueue-frame _ (λ i. delete_links (view (listed (alone s ino)) ino i)) _ _ ts
            h.delete_queue
            (delete_alone s.entries s.this_entry (listed (alone s ino)).this_entry ino out refl)
            (delete_alone_back s.entries s.this_entry (listed (alone s ino)).this_entry ino out
              refl);
      pin_queue =
          IsQueue-frame _ (λ i. pin_links (view (listed (alone s ino)) ino i)) _ _ ps h.pin_queue
            (λ i _. pin_same i) (λ i m. ap (λ l. l.member) (sym (pin_same i)) ∙ m);
      num_dirty = rw (h.num_dirty, pos_add_one (length ds), length-append ds (ino ∷ []));
      num_deleted = h.num_deleted;
      num_pinned = h.num_pinned;
      dirty_in_file = grown_in_file;
      deleted_in_file = h.deleted_in_file;
      pinned_in_file = h.pinned_in_file;
    }
      where
        own_eq : (ino == ino) ≡ true
        own_eq = (==_iff ino ino).1 refl

        empty : (ds ≡ []) × (s.head.last_dirty_inode ≡ 0)
        empty = elim (IsQueue-cases _ _ _ ds h.dirty_queue) [
          | inl (nil, _, last) ↦ (nil, last)
          | inr (some_first, _, _) ↦ cc (rw none_yet at some_first)
        ]

        last_zero : s.head.last_dirty_inode ≡ 0
        last_zero = empty.1

        empty_has : (i : ℕ) → has i ds ≡ true → false ≡ true
        empty_has i inside = subst (λ l. has i l ≡ true) empty.0 inside

        pin_same :
            (i : ℕ) → pin_links (view (listed (alone s ino)) ino i) ≡ pin_links (view s ino i)
        pin_same i = ground arith
