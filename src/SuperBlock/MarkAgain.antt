-- ===== src/SuperBlock/MarkAgain.antt =====
-- `super_block_mark_dirty` of an inode that is dirty already.
use hcfs.Base.{
  ℕ, ◌≡◌, refl, Bool, true, false, not, ◌||◌, List, [], ◌==◌, ◌∙◌, ltb, if◌then◌else◌, arith,
}
use hcfs.Base.Int.{pos, ◌-ℤ◌, ltb_ℤ, is_zero_ℤ}
use hcfs.SuperBlock.State.{SuperBlock, Status, is_dirty}
use hcfs.SuperBlock.Io.{M, ok, pure, ◌>>=◌, ◌>>◌, modify_entry, store_entry}
use hcfs.SuperBlock.Steps.{load-ok}
use hcfs.SuperBlock.Stats.{
  change_systemdata, change_system_meta, change_system_meta_ignore_dirty, being_recovered_later,
}
use hcfs.SuperBlock.Inodes.{
  is_removed, mark_again, mark_status, finish_mark, super_block_mark_dirty,
}
use hcfs.SuperBlock.Invariant.{Holds, IsQuiet, IsSound, view, Holds-frame}
use hcfs.SuperBlock.MarkDirty.{
  Holds-loaded, noted, noted-ok, stored, stored-noted, noted-IsSound, mark-removed,
}

-- The new size of the meta file is counted.
remarked : Bool → SuperBlock → ℕ → SuperBlock
remarked same s ino = if same then s else record s {
  this_entry = record s.this_entry { dirty_meta_size = s.meta_size ino };
  systemdata =
      change_systemdata (pos 0) (pos 0) (pos 0) (pos 0)
        (s.meta_size ino -ℤ s.this_entry.dirty_meta_size) (pos 0) s.systemdata;
}

abbrev is_same : SuperBlock → ℕ → Bool
is_same s ino =
    not (ltb_ℤ (pos 0) (s.meta_size ino))
    || is_zero_ℤ (s.meta_size ino -ℤ s.this_entry.dirty_meta_size)

module _ (s : SuperBlock) (ino : ℕ) (quiet : IsQuiet s) where
  count_again :
      (do
        modify_entry λ e. record e { dirty_meta_size = s.meta_size ino }
        change_system_meta_ignore_dirty ino
            (pos 0)
            (pos 0)
            (pos 0)
            (pos 0)
            (s.meta_size ino -ℤ s.this_entry.dirty_meta_size)
            (pos 0)
        pure true)
        s
      ≡ ok true (remarked false s ino)
  unfolding change_system_meta_ignore_dirty change_system_meta being_recovered_later remarked
  count_again = rw quiet.no_recovery

  branch :
      (b : Bool) (m : M Bool)
      → m s ≡ ok true (remarked false s ino)
      → (if b then pure false else m) s ≡ ok (not b) (remarked b s ino)
  unfolding remarked
  branch true m e = refl
  branch false m e = e

  mark_again-ok : mark_again ino s ≡ ok (not (is_same s ino)) (remarked (is_same s ino) s ino)
  unfolding mark_again
  mark_again-ok = branch (is_same s ino) _ count_again

remarked-same :
    (b : Bool) (s : SuperBlock) (ino : ℕ)
    → ((remarked b s ino).outcomes ≡ s.outcomes)
      × ((remarked b s ino).num_entries ≡ s.num_entries)
      × ((remarked b s ino).head ≡ s.head)
unfolding remarked
remarked-same true s ino = (refl, refl, refl)
remarked-same false s ino = (refl, refl, refl)

remarked-Holds :
    (b : Bool) (s : SuperBlock) (ino : ℕ) (ds ts ps : List ℕ)
    → Holds (view s ino) s.head s.num_entries ds ts ps
    → Holds
        (view (remarked b s ino) ino)
        (remarked b s ino).head
        (remarked b s ino).num_entries
        ds
        ts
        ps
unfolding remarked
remarked-Holds true s ino ds ts ps h = h
remarked-Holds false s ino ds ts ps h =
    Holds-frame _ _ _ _ ds ts ps h (λ i. ground arith) (λ i. ground arith) (λ i. ground arith)

remarked-IsSound :
    (b : Bool) (s : SuperBlock) (ino : ℕ) (ds ts ps : List ℕ)
    → IsSound s ds ts ps
    → IsSound (remarked b s ino) ds ts ps
unfolding remarked
remarked-IsSound true s ino ds ts ps h = h
remarked-IsSound false s ino ds ts ps h = h

-- The last step, whether the entry is written or not; `b` is `in_transit`.
abbrev finished : (need_write b : Bool) → SuperBlock → ℕ → SuperBlock
finished need_write b s ino = if need_write || b then stored (noted b s) ino else s

written :
    (need_write b : Bool) (s : SuperBlock) (ino : ℕ)
    → s.outcomes ≡ []
    → ltb s.num_entries ino ≡ false
    → (if need_write || b then store_entry ino else pure tt) (noted b s)
      ≡ ok tt (finished need_write b s ino)
written true b s ino io in_file = stored-noted b s ino io in_file
written false true s ino io in_file = stored-noted true s ino io in_file
written false false s ino io in_file = refl

finish_mark-ok :
    (need_write : Bool) (s : SuperBlock) (ino : ℕ)
    → s.outcomes ≡ []
    → ltb s.num_entries ino ≡ false
    → finish_mark ino need_write s ≡ ok tt (finished need_write s.this_entry.in_transit s ino)
unfolding finish_mark
finish_mark-ok need_write s ino io in_file =
    rw (noted-ok s.this_entry.in_transit s, ◌>>=◌)
      (written need_write s.this_entry.in_transit s ino io in_file)

finished-IsSound :
    (need_write b : Bool) (s : SuperBlock) (ino : ℕ) (ds ts ps : List ℕ)
    → Holds (view s ino) s.head s.num_entries ds ts ps
    → IsSound s ds ts ps
    → IsSound (finished need_write b s ino) ds ts ps × ((finished need_write b s ino).head ≡ s.head)
finished-IsSound true b s ino ds ts ps v h =
    ((noted-IsSound b ino s ds ts ps v).0, (noted-IsSound b ino s ds ts ps v).2)
finished-IsSound false true s ino ds ts ps v h =
    ((noted-IsSound true ino s ds ts ps v).0, (noted-IsSound true ino s ds ts ps v).2)
finished-IsSound false false s ino ds ts ps v h = (h, refl)

mark_status-dirty :
    (st : Status) (ino : ℕ) (s : SuperBlock)
    → st ≡ is_dirty
    → mark_status st ino s ≡ mark_again ino s
unfolding mark_status
mark_status-dirty st ino s e = rw e

-- On a sound super block, without failing reads and writes and outside of a recovery, marking an
-- inode that is dirty already and not removed returns without an error; the super block is sound
-- with the same three queues in the same order, and its head is as before.
pub super_block_mark_dirty-again :
    (s : SuperBlock) (ino : ℕ) (ds ts ps : List ℕ)
    → IsQuiet s
    → IsSound s ds ts ps
    → (ino == 0) ≡ false
    → ltb s.num_entries ino ≡ false
    → (s.entries ino).status ≡ is_dirty
    → ((s.entries ino).inode_stat.ino == 0) ≡ false
    → (t : SuperBlock) × (super_block_mark_dirty ino s ≡ ok tt t)
      × IsSound t ds ts ps
      × (t.head ≡ s.head)
unfolding is_removed
super_block_mark_dirty-again s ino ds ts ps quiet h nz in_file dirty live =
    (finished (not b) t.this_entry.in_transit t ino, ran, sound.0, sound.1 ∙ same.2)
  where
    u : SuperBlock
    u = record s { this_entry = s.entries ino }

    quiet' : IsQuiet u
    quiet' = record { io = quiet.io; no_recovery = quiet.no_recovery }

    b : Bool
    b = is_same u ino

    t : SuperBlock
    t = remarked b u ino

    same : (t.outcomes ≡ s.outcomes) × (t.num_entries ≡ s.num_entries) × (t.head ≡ s.head)
    same = remarked-same b u ino

    ran : super_block_mark_dirty ino s ≡ ok tt (finished (not b) t.this_entry.in_transit t ino)
    ran =
        mark-removed ino s u live (load-ok s quiet.io ino in_file nz)
        ∙ rw
            (
              mark_status-dirty (s.entries ino).status ino u dirty,
              mark_again-ok u ino quiet',
              ◌>>=◌,
            )
            (finish_mark-ok (not b) t ino (same.0 ∙ quiet.io) (rw same.1 in_file))

    sound :
        IsSound (finished (not b) t.this_entry.in_transit t ino) ds ts ps
        × ((finished (not b) t.this_entry.in_transit t ino).head ≡ t.head)
    sound =
        finished-IsSound (not b) t.this_entry.in_transit t ino ds ts ps
          (remarked-Holds b u ino ds ts ps (Holds-loaded s ino ds ts ps h))
          (remarked-IsSound b u ino ds ts ps h)
