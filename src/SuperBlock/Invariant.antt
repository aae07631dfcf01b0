-- ===== src/SuperBlock/Invariant.antt =====
-- When the three queues of a super block are sound.
use hcfs.Base.{ℕ, ◌≡◌, true, false, List, [], length, has, ◌==◌, if◌then◌else◌, ltb, ap, sym, ◌∙◌}
use hcfs.Base.Int.{pos}
use hcfs.Queue.{Links, IsQueue}
use hcfs.Queue.Changes.{IsQueue-frame}
use hcfs.SuperBlock.State.{
  SuperBlock, SuperBlockEntry, SuperBlockHead, is_dirty, to_be_deleted, st_pinning,
}
use hcfs.SuperBlock.StatusQueue.Dequeue.{status_eq}
use hcfs.SuperBlock.PinQueue.{pin_status_eq}

abbrev pub dirty_links : SuperBlockEntry → Links
dirty_links e = record {
  member = status_eq e.status is_dirty;
  prev = e.util_ll_prev;
  next = e.util_ll_next;
}

abbrev pub delete_links : SuperBlockEntry → Links
delete_links e = record {
  member = status_eq e.status to_be_deleted;
  prev = e.util_ll_prev;
  next = e.util_ll_next;
}

abbrev pub pin_links : SuperBlockEntry → Links
pin_links e = record {
  member = pin_status_eq e.pin_status st_pinning;
  prev = e.pin_ll_prev;
  next = e.pin_ll_next;
}

-- The entries as an operation on `ino` sees them: its own one is in memory.
abbrev pub view : SuperBlock → ℕ → ℕ → SuperBlockEntry
view s ino i = if ino == i then s.this_entry else s.entries i

-- The entries `f` and the head `h` hold the queues `dirty`, `deleted` and `pinned`, in order, with
-- their lengths; each queued inode lies in the file of `n` entries.
pub record Holds (f : ℕ → SuperBlockEntry) (h : SuperBlockHead) (n : ℕ)
    (dirty deleted pinned : List ℕ) : Type 0 where
  pub dirty_queue : IsQueue (λ i. dirty_links (f i)) h.first_dirty_inode h.last_dirty_inode dirty
  pub delete_queue :
      IsQueue (λ i. delete_links (f i)) h.first_to_delete_inode h.last_to_delete_inode deleted
  pub pin_queue : IsQueue (λ i. pin_links (f i)) h.first_pin_inode h.last_pin_inode pinned
  pub num_dirty : h.num_dirty ≡ pos (length dirty)
  pub num_deleted : h.num_to_be_deleted ≡ pos (length deleted)
  pub num_pinned : h.num_pinning_inodes ≡ pos (length pinned)
  pub dirty_in_file : (i : ℕ) → has i dirty ≡ true → ltb n i ≡ false
  pub deleted_in_file : (i : ℕ) → has i deleted ≡ true → ltb n i ≡ false
  pub pinned_in_file : (i : ℕ) → has i pinned ≡ true → ltb n i ≡ false

-- Reads and writes succeed, and no recovery of the super block is going on.
pub record IsQuiet (s : SuperBlock) : Type 0 where
  pub io : s.outcomes ≡ []
  pub no_recovery : s.recovery.is_ongoing ≡ false

-- The super block in between operations.
abbrev pub IsSound : SuperBlock → List ℕ → List ℕ → List ℕ → Type 0
IsSound s dirty deleted pinned = Holds s.entries s.head s.num_entries dirty deleted pinned

-- The queues depend on the links and the two statuses alone.
pub Holds-frame :
    (f g : ℕ → SuperBlockEntry) (h : SuperBlockHead) (n : ℕ) (ds ts ps : List ℕ)
    → Holds f h n ds ts ps
    → ((i : ℕ) → dirty_links (g i) ≡ dirty_links (f i))
    → ((i : ℕ) → delete_links (g i) ≡ delete_links (f i))
    → ((i : ℕ) → pin_links (g i) ≡ pin_links (f i))
    → Holds g h n ds ts ps
Holds-frame f g h n ds ts ps v d t p = record {
  dirty_queue =
      IsQueue-frame _ _ _ _ ds v.dirty_queue (λ i _. d i)
        (λ i m. ap (λ l. l.member) (sym (d i)) ∙ m);
  delete_queue =
      IsQueue-frame _ _ _ _ ts v.delete_queue (λ i _. t i)
        (λ i m. ap (λ l. l.member) (sym (t i)) ∙ m);
  pin_queue =
      IsQueue-frame _ _ _ _ ps v.pin_queue (λ i _. p i) (λ i m. ap (λ l. l.member) (sym (p i)) ∙ m);
  num_dirty = v.num_dirty;
  num_deleted = v.num_deleted;
  num_pinned = v.num_pinned;
  dirty_in_file = v.dirty_in_file;
  deleted_in_file = v.deleted_in_file;
  pinned_in_file = v.pinned_in_file;
}
