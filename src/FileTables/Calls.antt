-- ===== src/FileTables/Calls.antt =====
-- `open_fh` and `close_fh` on a sound table.
use hcfs.Base.{
  ℕ, ◌%◌, ◌<◌, ◌≤◌, ◌≡◌, ◌≢◌, refl, Bool, true, false, some, ok, err, arith, leb, ◌==◌,
  if◌then◌else◌, Bool-cases, inl, inr, ==_iff, ap, sym, ◌∙◌,
}
use hcfs.Base.Tables.{update}
use hcfs.Base.Family.{sum-update, sum-bounded}
use hcfs.FileTables.{
  max_open_file_entries, no_fh, is_fh, FhTable, free_index, open_at, open_fh, emfile, close_fh,
}
use hcfs.FileTables.Search.{is_used, free_below, free_index-Found, Found}
use hcfs.FileTables.Handles.{IsSound, kind, Sets, open_at-Sets, close_by-Sets}

module _ (t : FhTable) (sound : IsSound t) where
  room :
      (j : ℕ)
      → j < max_open_file_entries
      → t.entry_table_flags j ≡ no_fh
      → t.num_opened_files < max_open_file_entries
  room j lt free = omega (
    arith,
    sum-update is_used max_open_file_entries t.entry_table_flags j is_fh lt,
    sum-bounded is_used (λ f. ground arith) max_open_file_entries
        (update t.entry_table_flags j is_fh),
    ap is_used free,
    sound.counted,
  )

  search_ends :
      (j : ℕ)
      → j < max_open_file_entries
      → t.entry_table_flags j ≡ no_fh
      → Found t.entry_table_flags (
          free_index max_open_file_entries t.entry_table_flags
            (t.last_available_index % max_open_file_entries))
  search_ends j lt free =
      free_index-Found max_open_file_entries _ j t.entry_table_flags (omega arith) lt free
        (omega arith)

  not_full : (n m : ℕ) → n < m → leb m n ≡ false
  not_full n m h = ground arith

  full : (n m : ℕ) → m ≤ n → leb m n ≡ true
  full n m h = ground arith

  -- On a sound table where some index is free, wherever the search starts, `open_fh` ends and
  -- returns an index that was free. It is then in use, for a directory or a file as asked, and for
  -- the inode; every other handle is as it was, with its flag, its file and its directory entry,
  -- snapshot included; the number of handles is one more, and the table is sound.
  pub open_fh-Sets :
      (ino flags : ℕ) (isdir : Bool) (j : ℕ)
      → j < max_open_file_entries
      → t.entry_table_flags j ≡ no_fh
      → (i : ℕ) × (u : FhTable) × (open_fh ino flags isdir t ≡ some (ok i, u))
        × (i < max_open_file_entries)
        × (t.entry_table_flags i ≡ no_fh)
        × Sets t i (kind isdir) ino u
  unfolding open_fh
  open_fh-Sets ino flags isdir j lt free =
      let (i, e, lt_i, was) = search_ends j lt free in
      (
        i,
        open_at i ino flags isdir t,
        rw (open_fh, not_full _ _ (room j lt free)) (rw e),
        lt_i,
        was,
        open_at-Sets t i ino flags sound lt_i was isdir,
      )

  -- On a sound table where no index is free, `open_fh` returns EMFILE and changes nothing.
  pub open_fh_full :
      (ino flags : ℕ) (isdir : Bool)
      → ((j : ℕ) → j < max_open_file_entries → t.entry_table_flags j ≢ no_fh)
      → open_fh ino flags isdir t ≡ some (err emfile, t)
  unfolding open_fh
  open_fh_full ino flags isdir used =
      elim (Bool-cases (leb max_open_file_entries t.num_opened_files)) [
        | inl e ↦ rw (open_fh, e)
        | inr e ↦
            let (j, lt, free) =
              free_below max_open_file_entries t.entry_table_flags
                (ground (arith, sound.counted, e)) in
            absurd (used j lt free)
      ]

  -- On a sound table, `close_fh` of an index in use returns 0: the index is then free, every other
  -- handle is as it was, the number of handles is one less, and the table is sound.
  pub close_fh-Sets :
      (i : ℕ)
      → i < max_open_file_entries
      → t.entry_table_flags i ≢ no_fh
      → ((close_fh i t).result ≡ ok tt) × Sets t i no_fh 0 (close_fh i t).table
  unfolding close_fh
  close_fh-Sets i lt used = close_by-Sets t i sound lt (t.entry_table_flags i) refl used

-- A free index that is set and freed again.
module _ (t u : FhTable) (i ino : ℕ) (isdir : Bool) (was : t.entry_table_flags i ≡ no_fh)
    (sets : Sets t i (kind isdir) ino u) where
  now : u.entry_table_flags i ≡ kind isdir
  now = sets.flags i ∙ same (i == i) ((==_iff i i).1 refl)
    where
      same : (b : Bool) → b ≡ true → (if b then kind isdir else t.entry_table_flags i) ≡ kind isdir
      same b e = rw e

  kind_used : (b : Bool) → is_used (kind b) ≡ 1
  kind_used true = refl
  kind_used false = refl

  in_use : u.entry_table_flags i ≢ no_fh
  in_use e = let one = ap is_used (sym e ∙ now) in absurd (omega (arith, one, kind_used isdir))

  module _ (v : FhTable) (unsets : Sets u i no_fh 0 v) where
    flags_back : (k : ℕ) → v.entry_table_flags k ≡ t.entry_table_flags k
    flags_back k = unsets.flags k ∙ back (i == k) (==_iff i k).0 (sets.flags k)
      where
        back :
            (b : Bool)
            → (b ≡ true → i ≡ k)
            → u.entry_table_flags k ≡ (if b then kind isdir else t.entry_table_flags k)
            → (if b then no_fh else u.entry_table_flags k) ≡ t.entry_table_flags k
        back true same e = sym was ∙ ap t.entry_table_flags (same refl)
        back false same e = e

    number_back : v.num_opened_files ≡ t.num_opened_files
    number_back =
        omega (arith, sets.number, unsets.number, ap is_used was, ap is_used now, kind_used isdir)

-- On a sound table where some index is free, closing the handle that `open_fh` returned makes each
-- index free or in use as it was before, and their number what it was.
pub close_fh-open_fh :
    (t : FhTable) (ino flags : ℕ) (isdir : Bool) (j : ℕ)
    → IsSound t
    → j < max_open_file_entries
    → t.entry_table_flags j ≡ no_fh
    → (i : ℕ) × (u : FhTable) × (open_fh ino flags isdir t ≡ some (ok i, u))
      × ((close_fh i u).result ≡ ok tt)
      × ((k : ℕ) → (close_fh i u).table.entry_table_flags k ≡ t.entry_table_flags k)
      × ((close_fh i u).table.num_opened_files ≡ t.num_opened_files)
close_fh-open_fh t ino flags isdir j sound lt free =
    let (i, u, e, lt_i, was, sets) = open_fh-Sets t sound ino flags isdir j lt free in
    let (done, closed) = close_fh-Sets u sets.sound i lt_i (in_use t u i ino isdir was sets) in
    (
      i,
      u,
      e,
      done,
      flags_back t u i ino isdir was sets _ closed,
      number_back t u i ino isdir was sets _ closed,
    )
