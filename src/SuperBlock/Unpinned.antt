-- ===== src/SuperBlock/Unpinned.antt =====
-- The pin queue stays sound when an inode leaves it.
use hcfs.Base.{
  ℕ, ◌≡◌, refl, true, false, not, ◌&&◌, List, ◌==◌, has, erase, inl, inr, ◌⊎◌, Bool-cases, ==_iff,
  sym, ◌∙◌, ltb, length, ap, length-erase, has-erase, arith,
}
use hcfs.Base.Int.{pos, ◌-ℤ◌, pos_sub_one}
use hcfs.Queue.Neighbours.{IsQueue-back, IsQueue-on, IsQueue-apart, IsQueue-nonzero}
use hcfs.Queue.Changes.{IsQueue-erase, IsQueue-frame}
use hcfs.SuperBlock.State.{SuperBlock, SuperBlockEntry, PinStatus, st_unpin, st_pin, st_pinning}
use hcfs.SuperBlock.Io.{ok, ◌>>=◌, ◌>>◌}
use hcfs.SuperBlock.Steps.{load-ok}
use hcfs.SuperBlock.PinQueue.{pin_status_eq, not_in_pin_queue, pin_ll_dequeue}
use hcfs.SuperBlock.Pins.{
  set_pin_status, finish_pin, super_block_finish_pinning, unpin, super_block_mark_unpin,
}
use hcfs.SuperBlock.Invariant.{
  Holds, Holds-frame, IsQuiet, IsSound, view, dirty_links, delete_links, pin_links,
}
use hcfs.SuperBlock.Unlink.{InFile}
use hcfs.SuperBlock.PinDequeue.{
  pins_without, pin_links_without, pin_member_without, dirty_without_pin, delete_without_pin,
  pin_left, pin_finished, pin_ll_dequeue-ok, set_pin_status-finished,
}

module _ (s : SuperBlock) (ino : ℕ) (ds ts ps : List ℕ) (quiet : IsQuiet s)
    (h : Holds (view s ino) s.head s.num_entries ds ts ps)
    (pinning : s.this_entry.pin_status ≡ st_pinning) where
  own_eq : (ino == ino) ≡ true
  own_eq = (==_iff ino ino).1 refl

  own_member : (pin_links (view s ino ino)).member ≡ true
  own_member = rw (own_eq, pinning)

  pinned-InFile : (i : ℕ) → has i ps ≡ true → InFile s i
  pinned-InFile i inside =
      (IsQueue-nonzero _ _ _ ps h.pin_queue i inside, h.pinned_in_file i inside)

  apart :
      ((ino == s.this_entry.pin_ll_prev) ≡ false)
      × ((ino == s.this_entry.pin_ll_next) ≡ false)
      × ((s.this_entry.pin_ll_next ≡ 0)
          ⊎ ((s.this_entry.pin_ll_prev == s.this_entry.pin_ll_next) ≡ false))
  apart = rw own_eq at (IsQueue-apart _ _ _ ps h.pin_queue ino own_member)

  next_there : (s.this_entry.pin_ll_next ≡ 0) ⊎ InFile s s.this_entry.pin_ll_next
  next_there = elim (IsQueue-on _ _ _ ps h.pin_queue ino own_member) [
    | inl last ↦ inl (rw own_eq at last.0)
    | inr (inside, _) ↦ inr (pinned-InFile s.this_entry.pin_ll_next (rw own_eq at inside))
  ]

  prev_there : (s.this_entry.pin_ll_prev ≡ 0) ⊎ InFile s s.this_entry.pin_ll_prev
  prev_there = elim (IsQueue-back _ _ _ ps h.pin_queue ino own_member) [
    | inl first ↦ inl (rw own_eq at first.0)
    | inr (inside, _) ↦ inr (pinned-InFile s.this_entry.pin_ll_prev (rw own_eq at inside))
  ]

  -- An inode without neighbours is the first one.
  queued : not_in_pin_queue s ino ≡ false
  unfolding not_in_pin_queue
  queued = elim (IsQueue-back _ _ _ ps h.pin_queue ino own_member) [
    | inl first ↦
        first_one s.this_entry.pin_ll_next s.this_entry.pin_ll_prev s.head.first_pin_inode first.1
    | inr (inside, _) ↦
        behind s.this_entry.pin_ll_next s.this_entry.pin_ll_prev s.head.first_pin_inode
          (pinned-InFile s.this_entry.pin_ll_prev (rw own_eq at inside)).0
  ]
    where
      first_one : (n p f : ℕ) → f ≡ ino → ((n == 0) && ((p == 0) && not (f == ino))) ≡ false
      first_one n p f e = ground arith

      behind : (n p f : ℕ) → (p == 0) ≡ false → ((n == 0) && ((p == 0) && not (f == ino))) ≡ false
      behind n p f e = ground arith

  one_less : s.head.num_pinning_inodes -ℤ pos 1 ≡ pos (length (erase ino ps))
  one_less = rw h.num_pinned (
      pos_sub_one (length ps) (length (erase ino ps))
        (sym (length-erase ino ps (h.pin_queue.complete ino own_member))))

  still_inside : (i : ℕ) → has i (erase ino ps) ≡ true → has i ps ≡ true
  still_inside i inside = elim (Bool-cases (has i ps)) [
    | inl there ↦ there
    | inr absent ↦ cc (has-erase ino i ps absent)
  ]

  pub IsSound-finished :
      (q : PinStatus)
      → pin_status_eq q st_pinning ≡ false
      → IsSound (pin_finished q ino (pin_left s)) ds ts (erase ino ps)
  IsSound-finished q no_pinning = record {
    dirty_queue =
        IsQueue-frame _ (λ i. dirty_links (table i)) _ _ ds h.dirty_queue
          (λ i _. dirty_without_pin s.entries s.this_entry q ino pv nx i)
          (λ i m.
            ap (λ l. l.member) (sym (dirty_without_pin s.entries s.this_entry q ino pv nx i)) ∙ m);
    delete_queue =
        IsQueue-frame _ (λ i. delete_links (table i)) _ _ ts h.delete_queue
          (λ i _. delete_without_pin s.entries s.this_entry q ino pv nx i)
          (λ i m.
            ap (λ l. l.member) (sym (delete_without_pin s.entries s.this_entry q ino pv nx i)) ∙ m);
    pin_queue =
        IsQueue-erase (λ i. pin_links (view s ino i)) (λ i. pin_links (table i)) ino
          s.head.first_pin_inode s.head.last_pin_inode _ _ ps h.pin_queue own_member
          (pin_member_without s.entries s.this_entry q ino pv nx) (rw (own_eq, no_pinning))
          (λ i inside ne. rw own_eq (
            pin_links_without s.entries s.this_entry q ino pv nx i ne
              (pinned-InFile i (still_inside i inside)).0 apart.2))
          (rw own_eq) (rw own_eq);
    num_dirty = h.num_dirty;
    num_deleted = h.num_deleted;
    num_pinned = one_less;
    dirty_in_file = h.dirty_in_file;
    deleted_in_file = h.deleted_in_file;
    pinned_in_file = λ i inside. h.pinned_in_file i (still_inside i inside);
  }
    where
      open s.this_entry use {pin_ll_prev as pv, pin_ll_next as nx}

      table : ℕ → SuperBlockEntry
      table = pins_without s.entries s.this_entry q ino pv nx

  -- Taking the inode out of the queue and changing its status.
  pub leave_pins :
      (q : PinStatus)
      → ltb s.num_entries ino ≡ false
      → (do pin_ll_dequeue ino; set_pin_status q ino) s ≡ ok tt (pin_finished q ino (pin_left s))
  leave_pins q in_file =
      rw (pin_ll_dequeue-ok s ino quiet.io in_file pinning queued next_there prev_there, ◌>>=◌)
        (set_pin_status-finished s ino quiet.io in_file q)

module _ (s : SuperBlock) (ino : ℕ) (ds ts ps : List ℕ) (quiet : IsQuiet s) (h : IsSound s ds ts ps)
    (pinning : (s.entries ino).pin_status ≡ st_pinning) (nz : (ino == 0) ≡ false)
    (in_file : ltb s.num_entries ino ≡ false) where
  abbrev loaded : SuperBlock
  loaded = record s { this_entry = s.entries ino }

  loaded-Holds : Holds (view loaded ino) s.head s.num_entries ds ts ps
  loaded-Holds =
      Holds-frame s.entries _ s.head s.num_entries ds ts ps h (λ i. ground arith)
        (λ i. ground arith) (λ i. ground arith)

  loaded-IsQuiet : IsQuiet loaded
  loaded-IsQuiet = record { io = quiet.io; no_recovery = quiet.no_recovery }

  abbrev after : PinStatus → SuperBlock
  after q = pin_finished q ino (pin_left loaded)

  after-IsSound :
      (q : PinStatus) → pin_status_eq q st_pinning ≡ false → IsSound (after q) ds ts (erase ino ps)
  after-IsSound q other =
      IsSound-finished loaded ino ds ts ps loaded-IsQuiet loaded-Holds pinning q other

  after_status : (q : PinStatus) → ((after q).entries ino).pin_status ≡ q
  after_status q = rw ((==_iff ino ino).1 refl)

  finish_from :
      (p : PinStatus) (t : SuperBlock)
      → p ≡ st_pinning
      → finish_pin p ino t ≡ (do pin_ll_dequeue ino; set_pin_status st_pin ino) t
  unfolding finish_pin
  finish_from p t e = rw e

  unpin_from :
      (p : PinStatus) (t : SuperBlock)
      → p ≡ st_pinning
      → unpin p ino t ≡ (do pin_ll_dequeue ino; set_pin_status st_unpin ino) t
  unfolding unpin
  unpin_from p t e = rw e

  leave : (q : PinStatus) → (do pin_ll_dequeue ino; set_pin_status q ino) loaded ≡ ok tt (after q)
  leave q = leave_pins loaded ino ds ts ps loaded-IsQuiet loaded-Holds pinning q in_file

  finished : super_block_finish_pinning ino s ≡ ok tt (after st_pin)
  unfolding super_block_finish_pinning
  finished =
      rw (load-ok s quiet.io ino in_file nz, ◌>>=◌)
        (finish_from (s.entries ino).pin_status loaded pinning ∙ leave st_pin)

  unpinned : super_block_mark_unpin ino s ≡ ok tt (after st_unpin)
  unfolding super_block_mark_unpin
  unpinned =
      rw (load-ok s quiet.io ino in_file nz, ◌>>=◌)
        (unpin_from (s.entries ino).pin_status loaded pinning ∙ leave st_unpin)

  -- On a sound super block, outside of a recovery and without failing reads and writes, for an inode
  -- in the pin queue:
  -- `super_block_finish_pinning` and `super_block_mark_unpin` return without an error. They take the
  -- inode out of the pin queue, keep the order of the others and the other two queues, and leave the
  -- super block sound with the inode pinned and unpinned.
  pub finish_pinning-IsSound :
      (t u : SuperBlock) × (super_block_finish_pinning ino s ≡ ok tt t)
      × IsSound t ds ts (erase ino ps)
      × ((t.entries ino).pin_status ≡ st_pin)
      × (super_block_mark_unpin ino s ≡ ok tt u)
      × IsSound u ds ts (erase ino ps)
      × ((u.entries ino).pin_status ≡ st_unpin)
  finish_pinning-IsSound = (
    after st_pin,
    after st_unpin,
    finished,
    after-IsSound st_pin refl,
    after_status st_pin,
    unpinned,
    after-IsSound st_unpin refl,
    after_status st_unpin,
  )
