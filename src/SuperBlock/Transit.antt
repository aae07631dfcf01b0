-- ===== src/SuperBlock/Transit.antt =====
-- `super_block_update_transit` at the end of an upload.
use hcfs.Base.{
  ℕ, ◌≡◌, refl, Bool, true, false, List, [], ◌==◌, erase, ◌&&◌, ◌∙◌, ltb, if◌then◌else◌, arith,
  ==_iff,
}
use hcfs.SuperBlock.State.{SuperBlock, is_dirty}
use hcfs.SuperBlock.Io.{ok, M, pure, ◌>>=◌, ◌>>◌, load_entry, store_entry, write_super_block_head}
use hcfs.SuperBlock.Steps.{load-ok, store-ok, write_head-ok}
use hcfs.SuperBlock.StatusQueue.Dequeue.{ll_dequeue, status_eq}
use hcfs.SuperBlock.Inodes.{requeue_dirty, end_transit, super_block_update_transit}
use hcfs.SuperBlock.Invariant.{Holds, IsQuiet, IsSound, view, Holds-frame}
use hcfs.SuperBlock.LeaveDirty.{left, ll_dequeue-left, Holds-left}
use hcfs.SuperBlock.MarkDirty.{Holds-stored, stored, left-same}

-- `end_transit` after the time is taken: `b` is `mod_after_in_transit`.
abbrev ended : Bool → SuperBlock → SuperBlock
ended b s = if b then s else record (left s) { disk_head = (left s).head }

abbrev queue_after : Bool → ℕ → List ℕ → List ℕ
queue_after b ino ds = if b then ds else erase ino ds

no_requeue :
    (c : Bool) (m : M (Unit {0})) (s : SuperBlock)
    → c ≡ false
    → (if c then m else pure tt) s ≡ ok tt s
no_requeue c m s e = rw e

module _ (s : SuperBlock) (ino : ℕ) (ds ts ps : List ℕ) (quiet : IsQuiet s)
    (h : Holds (view s ino) s.head s.num_entries ds ts ps) (dirty : s.this_entry.status ≡ is_dirty)
    (off : s.sync_point_is_set ≡ false) (in_file : ltb s.num_entries ino ≡ false) where
  ended-ok :
      (b : Bool)
      → (if b
            then (if s.sync_point_is_set then requeue_dirty ino else pure tt)
            else (do ll_dequeue ino; write_super_block_head))
          s
        ≡ ok tt (ended b s)
  ended-ok true = no_requeue s.sync_point_is_set _ s off
  ended-ok false =
      rw (ll_dequeue-left s ino ds ts ps quiet h dirty off, ◌>>=◌)
        (write_head-ok (left s) ((left-same s).0 ∙ quiet.io))

  ended-Holds :
      (b : Bool)
      → Holds
          (view (ended b s) ino)
          (ended b s).head
          (ended b s).num_entries
          (queue_after b ino ds)
          ts
          ps
  ended-Holds true = h
  ended-Holds false = Holds-left s ino ds ts ps quiet h dirty

  ended-same : (b : Bool) → ((ended b s).outcomes ≡ []) × (ltb (ended b s).num_entries ino ≡ false)
  ended-same true = (quiet.io, in_file)
  ended-same false = ((left-same s).0 ∙ quiet.io, rw (left-same s).1 in_file)

-- The marks of the transit are set and the entry is written.
abbrev settled : SuperBlock → Bool → SuperBlock
settled s b = record s {
  this_entry = record s.this_entry { in_transit = b; mod_after_in_transit = false };
}

where_so :
    (b : Bool) (m k : M (Unit {0})) (s t : SuperBlock)
    → b ≡ true
    → m s ≡ ok tt t
    → ((if b then m else pure tt) >> k) s ≡ k t
where_so b m k s t e r = rw (e, r, ◌>>=◌)

transit-parts :
    (s t u : SuperBlock) (ino : ℕ)
    → load_entry ino s ≡ ok tt t
    → t.this_entry.status ≡ is_dirty
    → end_transit ino t ≡ ok tt u
    → super_block_update_transit ino false false s ≡ store_entry ino (settled u false)
unfolding super_block_update_transit
transit-parts s t u ino l dirty e =
    rw (l, ◌>>=◌)
      (where_so (status_eq t.this_entry.status is_dirty && true) (end_transit ino) _ t u (rw dirty)
        e)

module _ (s : SuperBlock) (ino : ℕ) (ds ts ps : List ℕ) (quiet : IsQuiet s) (h : IsSound s ds ts ps)
    (nz : (ino == 0) ≡ false) (in_file : ltb s.num_entries ino ≡ false)
    (off : s.sync_point_is_set ≡ false) where
  -- On a sound super block, without failing reads and writes, outside of a recovery and with no
  -- sync point set, the end of a complete upload of a dirty inode returns without an error; the
  -- super block is sound again; the inode has left the dirty queue, unless it was modified during
  -- the upload, and then the queue stays as it is. The other queues are as before, and the inode is
  -- no longer in transit.
  pub super_block_update_transit-IsSound :
      (s.entries ino).status ≡ is_dirty
      → (t : SuperBlock) × (super_block_update_transit ino false false s ≡ ok tt t)
        × IsSound t (if (s.entries ino).mod_after_in_transit then ds else erase ino ds) ts ps
        × ((t.entries ino).in_transit ≡ false)
  unfolding end_transit
  super_block_update_transit-IsSound dirty = (stored u ino, ran, sound, in_transit_off)
    where
      b : Bool
      b = (s.entries ino).mod_after_in_transit

      v : SuperBlock
      v = record s { this_entry = record (s.entries ino) { lastsync_time = s.current_time } }

      u : SuperBlock
      u = settled (ended b v) false

      quiet' : IsQuiet v
      quiet' = record { io = quiet.io; no_recovery = quiet.no_recovery }

      h' : Holds (view v ino) v.head v.num_entries ds ts ps
      h' =
          Holds-frame s.entries _ s.head s.num_entries ds ts ps h (λ i. ground arith)
            (λ i. ground arith) (λ i. ground arith)

      same : ((ended b v).outcomes ≡ []) × (ltb (ended b v).num_entries ino ≡ false)
      same = ended-same v ino ds ts ps quiet' h' dirty off in_file b

      ran : super_block_update_transit ino false false s ≡ ok tt (stored u ino)
      ran =
          transit-parts s (record s { this_entry = s.entries ino }) (ended b v) ino
            (load-ok s quiet.io ino in_file nz) dirty
            (ended-ok v ino ds ts ps quiet' h' dirty off in_file b)
          ∙ store-ok u same.0 ino same.1

      sound : IsSound (stored u ino) (queue_after b ino ds) ts ps
      sound =
          Holds-stored (ended b v) u.this_entry ino (queue_after b ino ds) ts ps
            (ended-Holds v ino ds ts ps quiet' h' dirty off in_file b) refl refl refl

      in_transit_off : ((stored u ino).entries ino).in_transit ≡ false
      in_transit_off = rw ((==_iff ino ino).1 refl)
