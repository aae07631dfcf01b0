-- ===== src/SuperBlock/LeaveDirty.antt =====
-- `ll_dequeue` takes an inode out of the dirty queue.
use hcfs.Base.{
  ℕ, ◌≡◌, refl, true, false, List, ◌==◌, has, erase, inl, inr, ◌⊎◌, Bool-cases, ==_iff, sym, ◌∙◌,
  if◌then◌else◌, length, ap, length-erase, has-erase,
}
use hcfs.Base.Int.{pos, ◌-ℤ◌, pos_sub_one}
use hcfs.Queue.Neighbours.{IsQueue-back, IsQueue-on, IsQueue-apart, IsQueue-nonzero}
use hcfs.Queue.Chain.{Chain-member}
use hcfs.Queue.Changes.{IsQueue-erase, IsQueue-frame}
use hcfs.SuperBlock.State.{SuperBlock, SuperBlockEntry, is_dirty}
use hcfs.SuperBlock.Io.{ok}
use hcfs.SuperBlock.StatusQueue.Dequeue.{ll_dequeue}
use hcfs.SuperBlock.Invariant.{Holds, IsQuiet, view, dirty_links, delete_links, pin_links}
use hcfs.SuperBlock.Links.{
  is_dirty_of_eq, joined_both, links_without, member_without, pin_without, delete_without,
  delete_not_without,
}
use hcfs.SuperBlock.Unlink.{
  InFile, NextKnows, PrevKnows, without_next, without_prev, counted_out, ll_dequeue-ok,
}

-- The super block without `this_entry` in the dirty queue.
unfoldable pub left : SuperBlock → SuperBlock
left s = counted_out (record s {
  head = record s.head {
    first_dirty_inode =
        if s.this_entry.util_ll_prev == 0
        then s.this_entry.util_ll_next
        else s.head.first_dirty_inode;
    last_dirty_inode =
        if s.this_entry.util_ll_next == 0
        then s.this_entry.util_ll_prev
        else s.head.last_dirty_inode;
  };
  entries = joined_both s.entries s.this_entry.util_ll_prev s.this_entry.util_ll_next;
})

unlinked-left : (s : SuperBlock) → counted_out (without_prev s.entries (without_next s)) ≡ left s
unfolding left without_next without_prev
unlinked-left s = elim (Bool-cases (s.this_entry.util_ll_next == 0)) [
  | inl e ↦ elim (Bool-cases (s.this_entry.util_ll_prev == 0)) [
    | inl e' ↦ rw (e, e')
    | inr e' ↦ rw (e, e')
  ]
  | inr e ↦ elim (Bool-cases (s.this_entry.util_ll_prev == 0)) [
    | inl e' ↦ rw (e, e')
    | inr e' ↦ rw (e, e')
  ]
]

module _ (s : SuperBlock) (ino : ℕ) (ds ts ps : List ℕ) (quiet : IsQuiet s)
    (h : Holds (view s ino) s.head s.num_entries ds ts ps)
    (dirty : s.this_entry.status ≡ is_dirty) where
  own_eq : (ino == ino) ≡ true
  own_eq = (==_iff ino ino).1 refl

  own_member : (dirty_links (view s ino ino)).member ≡ true
  own_member = rw (own_eq, dirty)

  dirty-InFile : (i : ℕ) → has i ds ≡ true → InFile s i
  dirty-InFile i inside =
      (IsQueue-nonzero _ _ _ ds h.dirty_queue i inside, h.dirty_in_file i inside)

  apart :
      ((ino == s.this_entry.util_ll_prev) ≡ false)
      × ((ino == s.this_entry.util_ll_next) ≡ false)
      × ((s.this_entry.util_ll_next ≡ 0)
          ⊎ ((s.this_entry.util_ll_prev == s.this_entry.util_ll_next) ≡ false))
  apart = rw own_eq at (IsQueue-apart _ _ _ ds h.dirty_queue ino own_member)

  next_knows : NextKnows s ino quiet.io
  next_knows = elim (IsQueue-on _ _ _ ds h.dirty_queue ino own_member) [
    | inl last ↦ inl (rw own_eq at last)
    | inr (inside, back) ↦
        inr (
          dirty-InFile s.this_entry.util_ll_next (rw own_eq at inside),
          rw (own_eq, apart.1) at back,
        )
  ]

  prev_knows : PrevKnows s ino quiet.io
  prev_knows = elim (IsQueue-back _ _ _ ds h.dirty_queue ino own_member) [
    | inl first ↦ inl (rw own_eq at first)
    | inr (inside, on) ↦
        inr
          (dirty-InFile s.this_entry.util_ll_prev (rw own_eq at inside), rw (own_eq, apart.0) at on)
  ]

  pub ll_dequeue-left : s.sync_point_is_set ≡ false → ll_dequeue ino s ≡ ok tt (left s)
  ll_dequeue-left off =
      ll_dequeue-ok s ino quiet.io dirty quiet.no_recovery off next_knows prev_knows
      ∙ ap (ok tt) (unlinked-left s)

  dirty_neighbour : (i : ℕ) → (ino == i) ≡ false → has i ds ≡ true → (s.entries i).status ≡ is_dirty
  dirty_neighbour i ne inside =
      is_dirty_of_eq (s.entries i).status (
        rw ne at (Chain-member (λ j. dirty_links (view s ino j)) 0 ds i h.dirty_queue.chain inside))

  prev_dirty :
      (s.this_entry.util_ll_prev ≡ 0) ⊎ ((s.entries s.this_entry.util_ll_prev).status ≡ is_dirty)
  prev_dirty = elim (IsQueue-back _ _ _ ds h.dirty_queue ino own_member) [
    | inl first ↦ inl (rw own_eq at first.0)
    | inr (inside, _) ↦
        inr (dirty_neighbour s.this_entry.util_ll_prev apart.0 (rw own_eq at inside))
  ]

  next_dirty :
      (s.this_entry.util_ll_next ≡ 0) ⊎ ((s.entries s.this_entry.util_ll_next).status ≡ is_dirty)
  next_dirty = elim (IsQueue-on _ _ _ ds h.dirty_queue ino own_member) [
    | inl last ↦ inl (rw own_eq at last.0)
    | inr (inside, _) ↦
        inr (dirty_neighbour s.this_entry.util_ll_next apart.1 (rw own_eq at inside))
  ]

  one_less : s.head.num_dirty -ℤ pos 1 ≡ pos (length (erase ino ds))
  one_less = rw h.num_dirty (
      pos_sub_one (length ds) (length (erase ino ds))
        (sym (length-erase ino ds (h.dirty_queue.complete ino own_member))))

  still_inside : (i : ℕ) → has i (erase ino ds) ≡ true → has i ds ≡ true
  still_inside i inside = elim (Bool-cases (has i ds)) [
    | inl there ↦ there
    | inr absent ↦ cc (has-erase ino i ds absent)
  ]

  pub Holds-left : Holds (view (left s) ino) (left s).head (left s).num_entries (erase ino ds) ts ps
  unfolding left counted_out
  Holds-left = record {
    dirty_queue =
        IsQueue-erase (λ i. dirty_links (view s ino i)) (λ i. dirty_links (view (left s) ino i)) ino
          s.head.first_dirty_inode s.head.last_dirty_inode _ _ ds h.dirty_queue own_member
          (member_without s.entries s.this_entry own ino pv nx) (rw own_eq)
          (λ i inside ne. rw own_eq (
            links_without s.entries s.this_entry own ino pv nx i ne
              (dirty-InFile i (still_inside i inside)).0 apart.2))
          (rw own_eq) (rw own_eq);
    delete_queue =
        IsQueue-frame _ (λ i. delete_links (view (left s) ino i)) _ _ ts h.delete_queue
          (delete_without s.entries s.this_entry own ino pv nx dirty refl prev_dirty next_dirty)
          (delete_not_without s.entries s.this_entry own ino pv nx dirty refl prev_dirty
            next_dirty);
    pin_queue =
        IsQueue-frame _ (λ i. pin_links (view (left s) ino i)) _ _ ps h.pin_queue
          (λ i _. pin_without s.entries s.this_entry own ino pv nx i refl)
          (λ i m.
            ap (λ l. l.member) (sym (pin_without s.entries s.this_entry own ino pv nx i refl)) ∙ m);
    num_dirty = one_less;
    num_deleted = h.num_deleted;
    num_pinned = h.num_pinned;
    dirty_in_file = λ i inside. h.dirty_in_file i (still_inside i inside);
    deleted_in_file = h.deleted_in_file;
    pinned_in_file = h.pinned_in_file;
  }
    where
      open s.this_entry use {util_ll_prev as pv, util_ll_next as nx}

      own : SuperBlockEntry
      own = (left s).this_entry
