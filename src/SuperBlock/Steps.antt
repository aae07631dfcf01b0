-- ===== src/SuperBlock/Steps.antt =====
-- What the reads and writes come to where no error occurs.
use hcfs.Base.{ℕ, ◌≡◌, [], false, ◌==◌, ltb}
use hcfs.Base.Tables.{update}
use hcfs.SuperBlock.State.{SuperBlock, SuperBlockEntry}
use hcfs.SuperBlock.Io.{
  ok, system_call, read_super_block_entry, write_super_block_entry, write_super_block_head,
  load_entry, store_entry, ◌>>=◌,
}

module _ (s : SuperBlock) (io : s.outcomes ≡ []) where
  pub system_call-ok : system_call s ≡ ok tt s
  unfolding system_call
  system_call-ok = rw io

  pub write_head-ok : write_super_block_head s ≡ ok tt (record s { disk_head = s.head })
  unfolding write_super_block_head
  write_head-ok = rw (system_call-ok, ◌>>=◌)

  module _ (ino : ℕ) (in_file : ltb s.num_entries ino ≡ false) where
    pub write-ok :
        (e : SuperBlockEntry)
        → write_super_block_entry ino e s ≡ ok tt (record s { entries = update s.entries ino e })
    unfolding write_super_block_entry
    write-ok e = rw (system_call-ok, ◌>>=◌, in_file)

    pub store-ok :
        store_entry ino s ≡ ok tt (record s { entries = update s.entries ino s.this_entry })
    unfolding store_entry
    store-ok = write-ok s.this_entry

    pub read-ok : (ino == 0) ≡ false → read_super_block_entry ino s ≡ ok (s.entries ino) s
    unfolding read_super_block_entry
    read-ok nz = rw (nz, system_call-ok, ◌>>=◌, in_file)

    pub load-ok :
        (ino == 0) ≡ false → load_entry ino s ≡ ok tt (record s { this_entry = s.entries ino })
    unfolding load_entry
    load-ok nz = rw (read-ok nz, ◌>>=◌)
