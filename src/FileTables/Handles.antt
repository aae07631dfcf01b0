-- ===== src/FileTables/Handles.antt =====
-- Opening and closing handles.
use hcfs.Base.{
  ℕ, ◌+◌, ◌-◌, ◌<◌, ◌≡◌, ◌≢◌, refl, Bool, true, false, none, ok, arith, ◌==◌, if◌then◌else◌,
  Bool-cases, inl, inr, ==_iff, ap,
}
use hcfs.Base.Tables.{update}
use hcfs.Base.Family.{sum_below, sum-update, weight-le_sum}
use hcfs.FileTables.{
  max_open_file_entries, FhFlag, no_fh, is_fh, is_dirh, FhEntry, DirhEntry, FhTable, open_at,
  close_by,
}
use hcfs.FileTables.Search.{is_used}

-- The number of handles is right, and while a directory is open without a snapshot, the flag for
-- such directories is set.
pub record IsSound (t : FhTable) : Type 0 where
  pub counted : t.num_opened_files ≡ sum_below is_used max_open_file_entries t.entry_table_flags
  pub nonsnap :
      (i : ℕ)
      → i < max_open_file_entries
      → t.entry_table_flags i ≡ is_dirh
      → (t.direntry_table i).snapshot_ptr ≡ none
      → t.have_nonsnap_dir ≡ true

abbrev pub kind : Bool → FhFlag
kind true = is_dirh
kind false = is_fh

-- The inode of a handle.
abbrev pub inode_at : FhFlag → FhEntry → DirhEntry → ℕ
inode_at no_fh e d = 0
inode_at is_fh e d = e.thisinode
inode_at is_dirh e d = d.thisinode

abbrev pub inode_of : FhTable → ℕ → ℕ
inode_of t i = inode_at (t.entry_table_flags i) (t.entry_table i) (t.direntry_table i)

-- The handle `i` of `t` is now of kind `f` and for the inode `ino`, every other one as it was, with
-- all that the two tables hold for it.
pub record Sets (t : FhTable) (i : ℕ) (f : FhFlag) (ino : ℕ) (u : FhTable) : Type 0 where
  pub flags : (j : ℕ) → u.entry_table_flags j ≡ (if i == j then f else t.entry_table_flags j)
  pub inode : inode_of u i ≡ ino
  pub others : (j : ℕ) → (i == j) ≡ false → inode_of u j ≡ inode_of t j
  pub same_entries : (j : ℕ) → (i == j) ≡ false → u.entry_table j ≡ t.entry_table j
  pub same_direntries : (j : ℕ) → (i == j) ≡ false → u.direntry_table j ≡ t.direntry_table j
  pub number : u.num_opened_files + is_used (t.entry_table_flags i) ≡ t.num_opened_files + is_used f
  pub sound : IsSound u

same_index : (i : ℕ) → (i == i) ≡ true
same_index i = (==_iff i i).1 refl

module _ (t : FhTable) (i ino fl : ℕ) (sound : IsSound t) (lt : i < max_open_file_entries)
    (free : t.entry_table_flags i ≡ no_fh) where
  opened :
      (f : FhFlag)
      → is_used f ≡ 1
      → t.num_opened_files + 1
        ≡ sum_below is_used max_open_file_entries (update t.entry_table_flags i f)
  opened f used = omega (
    arith,
    sum-update is_used max_open_file_entries t.entry_table_flags i f lt,
    ap is_used free,
    used,
    sound.counted,
  )

  pub open_at-Sets : (isdir : Bool) → Sets t i (kind isdir) ino (open_at i ino fl isdir t)
  unfolding open_at
  open_at-Sets true = record {
    flags = λ j. refl;
    inode = rw (same_index i);
    others = λ j ne. rw ne;
    same_entries = λ j ne. refl;
    same_direntries = λ j ne. rw ne;
    number = omega (arith, ap is_used free);
    sound = record { counted = opened is_dirh refl; nonsnap = λ j lt_j d s. refl };
  }
  open_at-Sets false = record {
    flags = λ j. refl;
    inode = rw (same_index i);
    others = λ j ne. rw ne;
    same_entries = λ j ne. rw ne;
    same_direntries = λ j ne. refl;
    number = omega (arith, ap is_used free);
    sound = record {
      counted = opened is_fh refl;
      nonsnap = λ j lt_j d s. elim (Bool-cases (i == j)) [
        | inl e ↦ cc (rw e at d)
        | inr ne ↦ sound.nonsnap j lt_j (rw ne at d) s
      ];
    };
  }

module _ (t : FhTable) (i : ℕ) (sound : IsSound t) (lt : i < max_open_file_entries) where
  closed :
      (f : FhFlag)
      → t.entry_table_flags i ≡ f
      → is_used f ≡ 1
      → t.num_opened_files - 1
        ≡ sum_below is_used max_open_file_entries (update t.entry_table_flags i no_fh)
  closed f was used = omega (
    arith,
    sum-update is_used max_open_file_entries t.entry_table_flags i no_fh lt,
    ap is_used was,
    used,
    sound.counted,
  )

  one_less :
      (f : FhFlag)
      → t.entry_table_flags i ≡ f
      → is_used f ≡ 1
      → t.num_opened_files - 1 + is_used (t.entry_table_flags i) ≡ t.num_opened_files + 0
  one_less f was used = omega (
    arith,
    weight-le_sum is_used max_open_file_entries t.entry_table_flags i lt,
    ap is_used was,
    used,
    sound.counted,
  )

  -- A directory that is open behind the closing was so before.
  still_open :
      (j : ℕ)
      → update t.entry_table_flags i no_fh j ≡ is_dirh
      → ((i == j) ≡ false) × (t.entry_table_flags j ≡ is_dirh)
  still_open j e = elim (Bool-cases (i == j)) [
    | inl same ↦ cc (rw same at e)
    | inr ne ↦ (ne, rw ne at e)
  ]

  pub close_by-Sets :
      (f : FhFlag)
      → t.entry_table_flags i ≡ f
      → f ≢ no_fh
      → ((close_by f i t).result ≡ ok tt) × Sets t i no_fh 0 (close_by f i t).table
  unfolding close_by
  close_by-Sets no_fh was used = absurd (used refl)
  close_by-Sets is_fh was used = (
    refl,
    record {
      flags = λ j. refl;
      inode = rw (same_index i);
      others = λ j ne. rw ne;
      same_entries = λ j ne. rw ne;
      same_direntries = λ j ne. refl;
      number = omega (arith, one_less is_fh was refl);
      sound = record {
        counted = closed is_fh was refl;
        nonsnap = λ j lt_j d s. sound.nonsnap j lt_j (still_open j d).1 s;
      };
    },
  )
  close_by-Sets is_dirh was used = (
    refl,
    record {
      flags = λ j. refl;
      inode = rw (same_index i);
      others = λ j ne. rw ne;
      same_entries = λ j ne. refl;
      same_direntries = λ j ne. rw ne;
      number = omega (arith, one_less is_dirh was refl);
      sound = record {
        counted = closed is_dirh was refl;
        nonsnap =
            λ j lt_j d s. sound.nonsnap j lt_j (still_open j d).1 (rw ((still_open j d).0) at s);
      };
    },
  )
