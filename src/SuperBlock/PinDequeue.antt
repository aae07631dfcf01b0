-- ===== src/SuperBlock/PinDequeue.antt =====
-- What `pin_ll_dequeue` does step by step, and the links behind it.
use hcfs.Base.{
  ℕ, ◌≡◌, true, false, Bool, not, [], ◌==◌, ◌∙◌, ltb, if◌then◌else◌, arith, Bool-cases, inl, inr,
  ◌⊎◌, ap,
}
use hcfs.Base.Int.{pos, ◌-ℤ◌}
use hcfs.Base.Tables.{update}
use hcfs.Queue.{relink}
use hcfs.SuperBlock.State.{SuperBlock, SuperBlockEntry, PinStatus, st_pinning}
use hcfs.SuperBlock.Io.{M, ok, ◌>>=◌}
use hcfs.SuperBlock.Steps.{read-ok, write-ok, store-ok, write_head-ok}
use hcfs.SuperBlock.PinQueue.{
  pin_status_eq, pin_unlink_prev, pin_unlink_next, not_in_pin_queue, pin_ll_dequeue,
}
use hcfs.SuperBlock.Pins.{set_pin_status}
use hcfs.SuperBlock.Invariant.{dirty_links, delete_links, pin_links}
use hcfs.SuperBlock.Links.{before}
use hcfs.SuperBlock.Unlink.{InFile}

-- The entries with the neighbours `pv` and `nx` of an entry joined to each other, in the order of
-- the writes.
module _ (f : ℕ → SuperBlockEntry) (pv nx : ℕ) where
  abbrev pub joined_prev : ℕ → SuperBlockEntry
  joined_prev = if pv == 0 then f else update f pv (record (f pv) { pin_ll_next = nx })

  abbrev pub joined_pins : ℕ → SuperBlockEntry
  joined_pins =
      if nx == 0
      then joined_prev
      else update joined_prev nx (record (joined_prev nx) { pin_ll_prev = pv })

-- The entry that leaves, with its new status.
abbrev pub left_pin : SuperBlockEntry → PinStatus → SuperBlockEntry
left_pin e q = record e { pin_ll_next = 0; pin_ll_prev = 0; pin_status = q }

module _ (f : ℕ → SuperBlockEntry) (e : SuperBlockEntry) (q : PinStatus) (ino pv nx : ℕ) where
  abbrev pub pins_without : ℕ → SuperBlockEntry
  pins_without =
      update (update (joined_pins f pv nx) ino (record e { pin_ll_next = 0; pin_ll_prev = 0 })) ino
        (left_pin e q)

  pub pin_links_without :
      (i : ℕ)
      → (ino == i) ≡ false
      → (i == 0) ≡ false
      → (nx ≡ 0) ⊎ ((pv == nx) ≡ false)
      → pin_links (pins_without i) ≡ relink (λ j. pin_links (before f e ino j)) pv nx i
  pin_links_without i ne nz (inl last) = ground arith
  pin_links_without i ne nz (inr apart) = ground arith

  pub pin_member_without :
      (i : ℕ)
      → (ino == i) ≡ false
      → (pin_links (pins_without i)).member ≡ (pin_links (before f e ino i)).member
  pin_member_without i ne = ground arith

  pub dirty_without_pin : (i : ℕ) → dirty_links (pins_without i) ≡ dirty_links (before f e ino i)
  dirty_without_pin i = ground arith

  pub delete_without_pin : (i : ℕ) → delete_links (pins_without i) ≡ delete_links (before f e ino i)
  delete_without_pin i = ground arith

unfoldable pub no_prev : SuperBlock → SuperBlock
no_prev s =
    let e = s.this_entry in
    if e.pin_ll_prev == 0
    then record s { head = record s.head { first_pin_inode = e.pin_ll_next } }
    else record s {
      entries =
          update s.entries e.pin_ll_prev
            (record (s.entries e.pin_ll_prev) { pin_ll_next = e.pin_ll_next });
    }

unfoldable pub no_next : SuperBlock → SuperBlock
no_next s =
    let e = s.this_entry in
    if e.pin_ll_next == 0
    then record s { head = record s.head { last_pin_inode = e.pin_ll_prev } }
    else record s {
      entries =
          update s.entries e.pin_ll_next
            (record (s.entries e.pin_ll_next) { pin_ll_prev = e.pin_ll_prev });
    }

unlink_prev-ok :
    (s : SuperBlock)
    → s.outcomes ≡ []
    → (s.this_entry.pin_ll_prev ≡ 0) ⊎ InFile s s.this_entry.pin_ll_prev
    → pin_unlink_prev s ≡ ok tt (no_prev s)
unfolding pin_unlink_prev no_prev
unlink_prev-ok s io (inl e) = rw e
unlink_prev-ok s io (inr (nz, in_file)) = rw (
  nz,
  read-ok s io s.this_entry.pin_ll_prev in_file nz,
  ◌>>=◌,
  write-ok s io s.this_entry.pin_ll_prev in_file,
)

unlink_next-ok :
    (s : SuperBlock)
    → s.outcomes ≡ []
    → (s.this_entry.pin_ll_next ≡ 0) ⊎ InFile s s.this_entry.pin_ll_next
    → pin_unlink_next s ≡ ok tt (no_next s)
unfolding pin_unlink_next no_next
unlink_next-ok s io (inl e) = rw e
unlink_next-ok s io (inr (nz, in_file)) = rw (
  nz,
  read-ok s io s.this_entry.pin_ll_next in_file nz,
  ◌>>=◌,
  write-ok s io s.this_entry.pin_ll_next in_file,
)

unlink_next-no_prev :
    (s : SuperBlock)
    → s.outcomes ≡ []
    → (s.this_entry.pin_ll_next ≡ 0) ⊎ InFile s s.this_entry.pin_ll_next
    → pin_unlink_next (no_prev s) ≡ ok tt (no_next (no_prev s))
unfolding no_prev
unlink_next-no_prev s io n = elim (Bool-cases (s.this_entry.pin_ll_prev == 0)) [
  | inl e ↦ rw e (unlink_next-ok _ io n)
  | inr e ↦ rw e (unlink_next-ok _ io n)
]

-- The super block without `this_entry` in the pin queue, before its own entry is written.
abbrev pub pin_left : SuperBlock → SuperBlock
pin_left s = record s {
  head = record s.head {
    first_pin_inode =
        if s.this_entry.pin_ll_prev == 0 then s.this_entry.pin_ll_next else s.head.first_pin_inode;
    last_pin_inode =
        if s.this_entry.pin_ll_next == 0 then s.this_entry.pin_ll_prev else s.head.last_pin_inode;
  };
  entries = joined_pins s.entries s.this_entry.pin_ll_prev s.this_entry.pin_ll_next;
}

unlinked-pin_left : (s : SuperBlock) → no_next (no_prev s) ≡ pin_left s
unfolding no_next no_prev
unlinked-pin_left s = elim (Bool-cases (s.this_entry.pin_ll_next == 0)) [
  | inl e ↦ elim (Bool-cases (s.this_entry.pin_ll_prev == 0)) [
    | inl e' ↦ rw e' (rw e)
    | inr e' ↦ rw e' (rw e)
  ]
  | inr e ↦ elim (Bool-cases (s.this_entry.pin_ll_prev == 0)) [
    | inl e' ↦ rw e' (rw e)
    | inr e' ↦ rw e' (rw e)
  ]
]

-- The entry is written without links, the head is counted down and on disk.
abbrev pub pin_dequeued : ℕ → SuperBlock → SuperBlock
pin_dequeued ino t =
    let e = record t.this_entry { pin_ll_next = 0; pin_ll_prev = 0 } in
    let h = record t.head { num_pinning_inodes = t.head.num_pinning_inodes -ℤ pos 1 } in
    record t { this_entry = e; entries = update t.entries ino e; head = h; disk_head = h }

-- Behind the change of the status, which is written as well.
abbrev pub pin_finished : PinStatus → ℕ → SuperBlock → SuperBlock
pin_finished q ino t =
    let u = pin_dequeued ino t in
    let e = record u.this_entry { pin_status = q } in
    record u { this_entry = e; entries = update u.entries ino e }

go_on :
    (b c : Bool) (k l m : M (Unit {0})) (s : SuperBlock)
    → b ≡ true
    → c ≡ false
    → (if not b then k else (if c then l else m)) s ≡ m s
go_on b c k l m s e f = rw (e, f)

module _ (s : SuperBlock) (ino : ℕ) (io : s.outcomes ≡ [])
    (in_file : ltb s.num_entries ino ≡ false) where
  pub pin_ll_dequeue-ok :
      s.this_entry.pin_status ≡ st_pinning
      → not_in_pin_queue s ino ≡ false
      → (s.this_entry.pin_ll_next ≡ 0) ⊎ InFile s s.this_entry.pin_ll_next
      → (s.this_entry.pin_ll_prev ≡ 0) ⊎ InFile s s.this_entry.pin_ll_prev
      → pin_ll_dequeue ino s ≡ ok tt (pin_dequeued ino (pin_left s))
  unfolding pin_ll_dequeue
  pin_ll_dequeue-ok pinning queued n p =
      go_on (pin_status_eq s.this_entry.pin_status st_pinning) _ _ _ _ s
        (ap (λ x. pin_status_eq x st_pinning) pinning) queued
      ∙ rw
          (
            unlink_prev-ok s io p,
            ◌>>=◌,
            unlink_next-no_prev s io n,
            ◌>>=◌,
            unlinked-pin_left s,
            store-ok
                (record (pin_left s) {
                  this_entry = record s.this_entry { pin_ll_next = 0; pin_ll_prev = 0 };
                })
                io ino in_file,
            ◌>>=◌,
          )
          (write_head-ok _ io)

  pub set_pin_status-finished :
      (q : PinStatus)
      → set_pin_status q ino (pin_dequeued ino (pin_left s))
        ≡ ok tt (pin_finished q ino (pin_left s))
  unfolding set_pin_status
  set_pin_status-finished q = store-ok _ io ino in_file
