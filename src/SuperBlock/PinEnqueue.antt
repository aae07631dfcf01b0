-- ===== src/SuperBlock/PinEnqueue.antt =====
-- `pin_ll_enqueue` puts an unpinned inode at the end of the pin queue.
use hcfs.Base.{ℕ, ◌≡◌, Bool, not, true, false, [], ◌==◌, ◌∙◌, ltb, if◌then◌else◌, arith}
use hcfs.Base.Int.{pos, ◌+ℤ◌}
use hcfs.Base.Tables.{update}
use hcfs.SuperBlock.State.{SuperBlock, SuperBlockEntry, st_unpin, st_pinning}
use hcfs.SuperBlock.Io.{M, ok, pure, ◌>>=◌}
use hcfs.SuperBlock.Steps.{read-ok, write-ok, store-ok, write_head-ok}
use hcfs.SuperBlock.Stats.{sem_check_and_release}
use hcfs.SuperBlock.PinQueue.{pin_status_eq, pin_first, pin_next, wake_pin, pin_ll_enqueue}
use hcfs.SuperBlock.Invariant.{dirty_links, delete_links, pin_links}
use hcfs.SuperBlock.Links.{before}

-- The entry of the inode in the queue, behind `last`.
abbrev pub pinning : SuperBlockEntry → ℕ → SuperBlockEntry
pinning e last = record e { pin_ll_next = 0; pin_ll_prev = last; pin_status = st_pinning }

module _ (f : ℕ → SuperBlockEntry) (e : SuperBlockEntry) (ino last : ℕ) where
  abbrev pub pin_table : ℕ → SuperBlockEntry
  pin_table =
      update (update f ino (pinning e last)) last
        (record (update f ino (pinning e last) last) { pin_ll_next = ino })

  pub pin_at :
      (i : ℕ)
      → (ino == i) ≡ false
      → pin_links (pin_table i) ≡ (
          if i == last
          then record (pin_links (before f e ino i)) { next = ino }
          else pin_links (before f e ino i))
  pin_at i ne = ground arith

  pub dirty_at : (i : ℕ) → dirty_links (pin_table i) ≡ dirty_links (before f e ino i)
  dirty_at i = ground arith

  pub delete_at : (i : ℕ) → delete_links (pin_table i) ≡ delete_links (before f e ino i)
  delete_at i = ground arith

  pub pin_member_at :
      (i : ℕ)
      → (ino == i) ≡ false
      → (pin_links (pin_table i)).member ≡ (pin_links (before f e ino i)).member
  pin_member_at i ne = ground arith

  pub pin_own :
      (ino == last) ≡ false
      → pin_links (pin_table ino) ≡ record { member = true; prev = last; next = 0 }
  pin_own ne = ground arith

module _ (f : ℕ → SuperBlockEntry) (e : SuperBlockEntry) (ino : ℕ) where
  pub dirty_own :
      (i : ℕ) → dirty_links (update f ino (pinning e 0) i) ≡ dirty_links (before f e ino i)
  dirty_own i = ground arith

  pub delete_own :
      (i : ℕ) → delete_links (update f ino (pinning e 0) i) ≡ delete_links (before f e ino i)
  delete_own i = ground arith

abbrev pub first_pinned : SuperBlock → ℕ → SuperBlock
first_pinned s ino = record s {
  entries = update s.entries ino (pinning s.this_entry 0);
  this_entry = pinning s.this_entry 0;
  head = record s.head { first_pin_inode = ino; last_pin_inode = ino };
}

abbrev pub next_pinned : SuperBlock → ℕ → SuperBlock
next_pinned s ino = record s {
  entries = pin_table s.entries s.this_entry ino s.head.last_pin_inode;
  this_entry = pinning s.this_entry s.head.last_pin_inode;
  head = record s.head { last_pin_inode = ino };
}

-- Counted, and with the head on disk.
abbrev pub pin_counted : SuperBlock → SuperBlock
pin_counted s = record s {
  head = record s.head { num_pinning_inodes = s.head.num_pinning_inodes +ℤ pos 1 };
  disk_head = record s.head { num_pinning_inodes = s.head.num_pinning_inodes +ℤ pos 1 };
  pin_wait = sem_check_and_release s.pin_wait;
}

unless :
    (b : Bool) (m : M (Unit {0})) (s : SuperBlock)
    → b ≡ true
    → (if not b then pure tt else m) s ≡ m s
unless b m s e = rw e

-- The entry is in memory, and on disk.
abbrev in_memory : SuperBlock → ℕ → SuperBlock
in_memory s last = record s { this_entry = pinning s.this_entry last }

abbrev on_disk : SuperBlock → (ino last : ℕ) → SuperBlock
on_disk s ino last = record (in_memory s last) {
  entries = update s.entries ino (pinning s.this_entry last);
}

module _ (s : SuperBlock) (ino : ℕ) (io : s.outcomes ≡ [])
    (in_file : ltb s.num_entries ino ≡ false) where
  pub pin_first-ok : pin_first ino s ≡ ok tt (first_pinned s ino)
  unfolding pin_first
  pin_first-ok = rw (store-ok (in_memory s 0) io ino in_file, ◌>>=◌)

  pub pin_next-ok :
      (s.head.last_pin_inode == 0) ≡ false
      → ltb s.num_entries s.head.last_pin_inode ≡ false
      → pin_next ino s ≡ ok tt (next_pinned s ino)
  unfolding pin_next
  pin_next-ok nz last_in_file = rw (
    store-ok (in_memory s s.head.last_pin_inode) io ino in_file,
    ◌>>=◌,
    read-ok (on_disk s ino s.head.last_pin_inode) io s.head.last_pin_inode last_in_file nz,
    ◌>>=◌,
    write-ok (on_disk s ino s.head.last_pin_inode) io s.head.last_pin_inode last_in_file,
  )

  -- The steps of `pin_ll_enqueue`, from either way to link the entry.
  pub enqueue-parts :
      (t : SuperBlock)
      → s.this_entry.pin_status ≡ st_unpin
      → (if s.head.last_pin_inode == 0 then pin_first ino else pin_next ino) s ≡ ok tt t
      → t.outcomes ≡ []
      → pin_ll_enqueue ino s ≡ ok tt (pin_counted t)
  unfolding pin_ll_enqueue wake_pin
  enqueue-parts t unpinned linked t_io =
      unless (pin_status_eq s.this_entry.pin_status st_unpin) _ s (rw unpinned)
      ∙ rw (linked, ◌>>=◌) (write_head-ok _ t_io)
