-- ===== src/FileTables/Snapshot/Sound.antt =====
-- The loop over all handles of directories.
use hcfs.Base.{
  ℕ, ◌+◌, ◌<◌, zero, suc, ◌≡◌, ◌≢◌, refl, Bool, true, false, Option, none, some, Result, ok, arith,
  ◌==◌, if◌then◌else◌, Bool-cases, inl, inr, ==_iff, ap, sym, ◌∙◌, not, subst,
}
use hcfs.Base.Tables.{update}
use hcfs.FileTables.{max_open_file_entries, FhFlag, no_fh, is_fh, is_dirh, DirhEntry, FhTable}
use hcfs.FileTables.Handles.{IsSound}
use hcfs.FileTables.Snapshot.{
  Copy, made, not_made, Files, Snapping, Progress, going, stopped, with_snapshot, open_snapshot,
  make_snapshot, snap_dir, snap_at, snap_index, snap_loop, start, finish, handle_dirmeta_snapshot,
}

module _ (table : ℕ → FhFlag) (ino : ℕ) where
  -- A directory at `j` that is left without a snapshot has another inode, and is noted.
  abbrev IsNoted : Snapping → ℕ → Type 0
  IsNoted s j =
      table j ≡ is_dirh
      → (s.dirs j).snapshot_ptr ≡ none
      → (s.have_opened_nonsnap ≡ true) × (((s.dirs j).thisinode == ino) ≡ false)

  abbrev pub Done : ℕ → Snapping → Type 0
  Done n s = (j : ℕ) → j < n → IsNoted s j

  abbrev pub GoesOn : ℕ → Progress → Type 0
  GoesOn n (going s) = Done n s
  GoesOn n (stopped e s) = Unit

  -- Handles below `n` are as before, the one at `n` is noted.
  Done-next :
      (n : ℕ) (s s' : Snapping)
      → Done n s
      → ((j : ℕ) → j < n → s'.dirs j ≡ s.dirs j)
      → (s.have_opened_nonsnap ≡ true → s'.have_opened_nonsnap ≡ true)
      → IsNoted s' n
      → Done (n + 1) s'
  Done-next n s s' d same keeps last j lt = elim (Bool-cases (j == n)) [
    | inl e ↦ subst (IsNoted s') (sym ((==_iff j n).0 e)) last
    | inr ne ↦ earlier (s'.dirs j) (same j (below ne)) (d j (below ne))
  ]
    where
      below : (j == n) ≡ false → j < n
      below ne = ground arith

      earlier :
          (e : DirhEntry)
          → e ≡ s.dirs j
          → IsNoted s j
          → table j ≡ is_dirh
          → e.snapshot_ptr ≡ none
          → (s'.have_opened_nonsnap ≡ true) × ((e.thisinode == ino) ≡ false)
      earlier e eq noted t z =
          let (was, other) = noted t (ap (λ x. x.snapshot_ptr) (sym eq) ∙ z) in
          (keeps was, ap (λ x. x.thisinode == ino) eq ∙ other)

  abbrev stored : ℕ → ℕ → Snapping → Snapping
  stored file n s = record s { dirs = update s.dirs n (with_snapshot file (s.dirs n)) }

  open_snapshot-GoesOn :
      (o : Option ℕ) (n : ℕ) (s : Snapping) → Done n s → GoesOn (n + 1) (open_snapshot o n s)
  unfolding open_snapshot
  open_snapshot-GoesOn none n s d = tt
  open_snapshot-GoesOn (some file) n s d =
      Done-next n s (stored file n s) d (λ j lt. rw (above j lt)) (λ e. e)
        (λ t z. cc (rw ((==_iff n n).1 refl) at z))
    where
      above : (j : ℕ) → j < n → (n == j) ≡ false
      above j lt = ground arith

  make_snapshot-GoesOn :
      (o : Copy) (c : Files) (n : ℕ) (s : Snapping)
      → Done n s
      → GoesOn (n + 1) (make_snapshot o c n s)
  unfolding make_snapshot
  make_snapshot-GoesOn made c n s d =
      open_snapshot-GoesOn (c.reopened n) n
        (record s { snap_created = true; fcloses = s.fcloses + 1 }) d
  make_snapshot-GoesOn (not_made e is_open) c n s d = tt

  snap_dir-GoesOn :
      (b : Bool) (c : Files) (n : ℕ) (s : Snapping)
      → ((s.dirs n).thisinode == ino) ≡ b
      → Done n s
      → GoesOn (n + 1) (snap_dir b c n s)
  unfolding snap_dir
  snap_dir-GoesOn true c n s e d = made_or_not s.snap_created
    where
      made_or_not :
          (b : Bool)
          → GoesOn
              (n + 1)
              (if b then open_snapshot (c.reopened n) n s else make_snapshot c.copy c n s)
      made_or_not true = open_snapshot-GoesOn (c.reopened n) n s d
      made_or_not false = make_snapshot-GoesOn c.copy c n s d
  snap_dir-GoesOn false c n s e d =
      Done-next n s (record s { have_opened_nonsnap = true }) d (λ j lt. refl) (λ k. refl)
        (λ t z. (refl, e))

  snap_at-GoesOn :
      (f : FhFlag) (o : Option ℕ) (c : Files) (n : ℕ) (s : Snapping)
      → table n ≡ f
      → (s.dirs n).snapshot_ptr ≡ o
      → Done n s
      → GoesOn (n + 1) (snap_at f o ((s.dirs n).thisinode == ino) c n s)
  unfolding snap_at
  snap_at-GoesOn is_dirh none c n s ef eo d = snap_dir-GoesOn _ c n s refl d
  snap_at-GoesOn is_dirh (some file) c n s ef eo d =
      Done-next n s s d (λ j lt. refl) (λ k. k) (λ t z. cc (sym eo ∙ z))
  snap_at-GoesOn is_fh o c n s ef eo d =
      Done-next n s s d (λ j lt. refl) (λ k. k) (λ t z. cc (sym ef ∙ t))
  snap_at-GoesOn no_fh o c n s ef eo d =
      Done-next n s s d (λ j lt. refl) (λ k. k) (λ t z. cc (sym ef ∙ t))

  loop_goes :
      (left n k : ℕ) (c : Files) (s : Snapping) (p : Progress)
      → snap_index table ino c n s ≡ p
      → GoesOn (n + 1) p
      → n + suc left ≡ k
      → ((s' : Snapping) → Done (n + 1) s' → GoesOn k (snap_loop left table ino c (n + 1) s'))
      → GoesOn k (snap_loop (suc left) table ino c n s)
  unfolding snap_loop
  loop_goes left n k c s (going s') e d eq later = rw (snap_loop, e) (later s' d)
  loop_goes left n k c s (stopped x s') e d eq later = rw (snap_loop, e) tt

  pub snap_loop-GoesOn :
      (left n k : ℕ) (c : Files) (s : Snapping)
      → n + left ≡ k
      → Done n s
      → GoesOn k (snap_loop left table ino c n s)
  unfolding snap_loop
  snap_loop-GoesOn zero n k c s e d = λ j lt. d j (omega arith)
  snap_loop-GoesOn (suc left) n k c s e d =
      loop_goes left n k c s (snap_index table ino c n s) refl
        (snap_at-GoesOn (table n) ((s.dirs n).snapshot_ptr) c n s refl refl d) e
        (λ s' d'. snap_loop-GoesOn left (n + 1) k c s' (omega arith) d')

-- What holds behind a call: the table is sound, and a call without an error leaves no directory of
-- the inode without a snapshot.
abbrev pub Snapped : ℕ → Result (Unit {0}) × FhTable → Type 0
Snapped ino (r, u) =
    IsSound u
    × (r ≡ ok tt
        → (j : ℕ) → j < max_open_file_entries
        → u.entry_table_flags j ≡ is_dirh
        → (u.direntry_table j).thisinode ≡ ino
        → (u.direntry_table j).snapshot_ptr ≢ none)

module _ (t : FhTable) (sound : IsSound t) (ino : ℕ) where
  finish-Snapped :
      (p : Progress)
      → t.have_nonsnap_dir ≡ true
      → GoesOn t.entry_table_flags ino max_open_file_entries p
      → Snapped ino (finish p t)
  unfolding finish
  finish-Snapped (going s) nonsnap d = (
    record { counted = sound.counted; nonsnap = λ j lt e z. (d j lt e z).0 },
    λ r j lt e same z. cc (sym ((==_iff (s.dirs j).thisinode ino).1 same) ∙ (d j lt e z).1),
  )
  finish-Snapped (stopped x s) nonsnap d =
      (record { counted = sound.counted; nonsnap = λ j lt e z. nonsnap }, λ r. cc)

  -- On a sound table, `handle_dirmeta_snapshot` keeps the table sound, whatever the calls on files
  -- come to: while a directory is open without a snapshot, `have_nonsnap_dir` stays set. Where it
  -- returns 0, no handle of the inode's directory is left without a snapshot.
  pub handle_dirmeta_snapshot-Snapped :
      (has_meta : Bool) (c : Files) → Snapped ino (handle_dirmeta_snapshot has_meta c ino t)
  unfolding handle_dirmeta_snapshot
  handle_dirmeta_snapshot-Snapped false c = (sound, λ r. cc)
  handle_dirmeta_snapshot-Snapped true c = elim (Bool-cases t.have_nonsnap_dir) [
    | inl e ↦ subst (Snapped ino) (sym (runs c t.have_nonsnap_dir e)) (
        finish-Snapped _ e (
          snap_loop-GoesOn t.entry_table_flags ino max_open_file_entries 0 _ c (start t) refl
            (λ j lt. absurd (omega arith))))
    | inr e ↦
        subst (Snapped ino) (sym (skips c t.have_nonsnap_dir e))
          (sound, λ r j lt d same z. cc (sym e ∙ sound.nonsnap j lt d z))
  ]
    where
      loop : Files → Result (Unit {0}) × FhTable
      loop c = finish (snap_loop max_open_file_entries t.entry_table_flags ino c 0 (start t)) t

      runs : (c : Files) (b : Bool) → b ≡ true → (if not b then (ok tt, t) else loop c) ≡ loop c
      runs c b e = rw e

      skips :
          (c : Files) (b : Bool) → b ≡ false → (if not b then (ok tt, t) else loop c) ≡ (ok tt, t)
      skips c b e = rw e
