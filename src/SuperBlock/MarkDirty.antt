-- ===== src/SuperBlock/MarkDirty.antt =====
-- The operations that move an inode into and out of the dirty queue, from the super block between
-- operations to the super block between operations.
use hcfs.Base.{
  ℕ, ◌≡◌, refl, Bool, true, false, List, [], ◌∷◌, ◌++◌, ◌==◌, sym, ◌∙◌, ltb, if◌then◌else◌, arith,
  Bool-cases, inl, inr,
}
use hcfs.Base.Tables.{update}
use hcfs.SuperBlock.State.{SuperBlock, SuperBlockEntry, Status, no_ll}
use hcfs.SuperBlock.Io.{ok, pure, ◌>>=◌, modify_entry, store_entry, load_entry}
use hcfs.SuperBlock.Steps.{load-ok, store-ok, write_head-ok}
use hcfs.SuperBlock.Inodes.{
  is_removed, first_mark, mark_status, finish_mark, super_block_mark_dirty,
}
use hcfs.SuperBlock.Invariant.{
  Holds, IsQuiet, IsSound, view, Holds-frame, dirty_links, delete_links, pin_links,
}
use hcfs.SuperBlock.JoinDirty.{counted, joined, ll_enqueue-joined, Holds-joined}
use hcfs.SuperBlock.Unlink.{counted_out}
use hcfs.SuperBlock.Enqueue.{alone, behind}
use hcfs.Base.Int.{is_zero_ℤ}
use hcfs.SuperBlock.LeaveDirty.{left}

-- The entry `ino` is read: the view of the operation is the table itself.
pub Holds-loaded :
    (s : SuperBlock) (ino : ℕ) (ds ts ps : List ℕ)
    → IsSound s ds ts ps
    → Holds (view (record s { this_entry = s.entries ino }) ino) s.head s.num_entries ds ts ps
Holds-loaded s ino ds ts ps h =
    Holds-frame s.entries _ s.head s.num_entries ds ts ps h (λ i. ground arith) (λ i. ground arith)
      (λ i. ground arith)

-- The entry `ino` is written, with links and statuses as in memory.
pub Holds-stored :
    (s : SuperBlock) (e : SuperBlockEntry) (ino : ℕ) (ds ts ps : List ℕ)
    → Holds (view s ino) s.head s.num_entries ds ts ps
    → dirty_links e ≡ dirty_links s.this_entry
    → delete_links e ≡ delete_links s.this_entry
    → pin_links e ≡ pin_links s.this_entry
    → Holds (update s.entries ino e) s.head s.num_entries ds ts ps
Holds-stored s e ino ds ts ps h d t p =
    Holds-frame (view s ino) _ s.head s.num_entries ds ts ps h (λ i. ground arith)
      (λ i. ground arith) (λ i. ground arith)

-- What stays through `ll_enqueue`.
counted-same :
    (s : SuperBlock) (ino : ℕ)
    → ((counted ino s).outcomes ≡ s.outcomes) × ((counted ino s).num_entries ≡ s.num_entries)
unfolding counted
counted-same s ino = elim (Bool-cases (is_zero_ℤ (s.meta_size ino))) [
  | inl e ↦ rw e (refl, refl)
  | inr e ↦ rw e (refl, refl)
]

joined-same :
    (s : SuperBlock) (ino : ℕ)
    → ((joined s ino).outcomes ≡ s.outcomes) × ((joined s ino).num_entries ≡ s.num_entries)
unfolding joined
joined-same s ino = elim (Bool-cases (s.head.first_dirty_inode == 0)) [
  | inl e ↦ rw e (counted-same (alone s ino) ino)
  | inr e ↦ rw e (counted-same (behind s ino) ino)
]

pub left-same :
    (s : SuperBlock) → ((left s).outcomes ≡ s.outcomes) × ((left s).num_entries ≡ s.num_entries)
unfolding left counted_out
left-same s = (refl, refl)

-- The last step of `super_block_mark_dirty`.
abbrev pub stored : SuperBlock → ℕ → SuperBlock
stored s ino = record s { entries = update s.entries ino s.this_entry }

abbrev pub marked : SuperBlock → SuperBlock
marked s = record s { this_entry = record s.this_entry { mod_after_in_transit = true } }

abbrev pub noted : Bool → SuperBlock → SuperBlock
noted in_transit s = if in_transit then marked s else s

abbrev finished : SuperBlock → ℕ → SuperBlock
finished s ino = stored (noted s.this_entry.in_transit s) ino

pub noted-ok :
    (b : Bool) (s : SuperBlock)
    → (if b then modify_entry (λ e. record e { mod_after_in_transit = true }) else pure tt) s
      ≡ ok tt (noted b s)
noted-ok true s = refl
noted-ok false s = refl

pub stored-noted :
    (b : Bool) (s : SuperBlock) (ino : ℕ)
    → s.outcomes ≡ []
    → ltb s.num_entries ino ≡ false
    → store_entry ino (noted b s) ≡ ok tt (stored (noted b s) ino)
stored-noted true s ino io in_file = store-ok (marked s) io ino in_file
stored-noted false s ino io in_file = store-ok s io ino in_file

finish_mark-ok :
    (ino : ℕ) (s : SuperBlock)
    → s.outcomes ≡ []
    → ltb s.num_entries ino ≡ false
    → finish_mark ino true s ≡ ok tt (finished s ino)
unfolding finish_mark
finish_mark-ok ino s io in_file =
    rw (noted-ok s.this_entry.in_transit s, ◌>>=◌)
      (stored-noted s.this_entry.in_transit s ino io in_file)

pub noted-IsSound :
    (b : Bool) (ino : ℕ) (s : SuperBlock) (ds ts ps : List ℕ)
    → Holds (view s ino) s.head s.num_entries ds ts ps
    → IsSound (stored (noted b s) ino) ds ts ps
      × ((stored (noted b s) ino).disk_head ≡ s.disk_head)
      × ((stored (noted b s) ino).head ≡ s.head)
noted-IsSound true ino s ds ts ps h =
    (Holds-stored s (marked s).this_entry ino ds ts ps h refl refl refl, refl, refl)
noted-IsSound false ino s ds ts ps h =
    (Holds-stored s s.this_entry ino ds ts ps h refl refl refl, refl, refl)

pub mark-removed :
    (ino : ℕ) (s t : SuperBlock)
    → is_removed t ≡ false
    → load_entry ino s ≡ ok tt t
    → super_block_mark_dirty ino s
      ≡ (do need_write ← mark_status t.this_entry.status ino; finish_mark ino need_write) t
unfolding super_block_mark_dirty
mark-removed ino s t e l = rw (l, ◌>>=◌, e)

-- The entry as read and put in the dirty queue, with the head written.
abbrev first_marked : SuperBlock → ℕ → SuperBlock
first_marked s ino = record (joined s ino) { disk_head = (joined s ino).head }

module _ (s : SuperBlock) (ino : ℕ) (ds ts ps : List ℕ) (quiet : IsQuiet s)
    (h : Holds (view s ino) s.head s.num_entries ds ts ps) (out : s.this_entry.status ≡ no_ll)
    (nz : (ino == 0) ≡ false) where
  mark_status-first : mark_status s.this_entry.status ino s ≡ ok true (first_marked s ino)
  unfolding mark_status first_mark
  mark_status-first =
      from_no_ll s.this_entry.status out
      ∙ rw (
        ll_enqueue-joined s ino ds ts ps quiet h out nz,
        ◌>>=◌,
        write_head-ok (joined s ino) ((joined-same s ino).0 ∙ quiet.io),
      )
    where
      from_no_ll : (st : Status) → st ≡ no_ll → mark_status st ino s ≡ first_mark ino s
      from_no_ll st e = rw e

module _ (s : SuperBlock) (ino : ℕ) (ds ts ps : List ℕ) (quiet : IsQuiet s) (h : IsSound s ds ts ps)
    (nz : (ino == 0) ≡ false) (in_file : ltb s.num_entries ino ≡ false) where
  -- On a sound super block, without failing reads and writes and outside of a recovery, marking an
  -- inode that is not removed and is on no list returns without an error; the super block is sound
  -- again, its dirty queue has the inode as its last one and the same others, the other queues are
  -- as before, and the head is on disk.
  pub super_block_mark_dirty-IsSound :
      (s.entries ino).status ≡ no_ll
      → ((s.entries ino).inode_stat.ino == 0) ≡ false
      → (t : SuperBlock) × (super_block_mark_dirty ino s ≡ ok tt t)
        × IsSound t (ds ++ (ino ∷ [])) ts ps
        × (t.disk_head ≡ t.head)
  unfolding is_removed
  super_block_mark_dirty-IsSound out live = (finished t ino, ran, sound.0, sound.1 ∙ sym sound.2)
    where
      u : SuperBlock
      u = record s { this_entry = s.entries ino }

      quiet' : IsQuiet u
      quiet' = record { io = quiet.io; no_recovery = quiet.no_recovery }

      h' : Holds (view u ino) u.head u.num_entries ds ts ps
      h' = Holds-loaded s ino ds ts ps h

      t : SuperBlock
      t = first_marked u ino

      t_in_file : ltb t.num_entries ino ≡ false
      t_in_file = rw (joined-same u ino).1 in_file

      ran : super_block_mark_dirty ino s ≡ ok tt (finished t ino)
      ran =
          mark-removed ino s u live (load-ok s quiet.io ino in_file nz)
          ∙ rw (mark_status-first u ino ds ts ps quiet' h' out nz, ◌>>=◌)
              (finish_mark-ok ino t ((joined-same u ino).0 ∙ quiet.io) t_in_file)

      sound :
          IsSound (finished t ino) (ds ++ (ino ∷ [])) ts ps
          × ((finished t ino).disk_head ≡ t.disk_head)
          × ((finished t ino).head ≡ t.head)
      sound =
          noted-IsSound t.this_entry.in_transit ino t (ds ++ (ino ∷ [])) ts ps
            (Holds-joined u ino ds ts ps quiet' h' out nz in_file)
