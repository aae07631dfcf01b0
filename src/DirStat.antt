-- ===== src/DirStat.antt =====
-- The statistics of directories (src/HCFS/dir_statistics.c): for each directory, how many files below
-- it are local, in the cloud, or both. A change is added along the primary parents up to the root.
pub mod Walk
mod Tests
use hcfs.Base.{
  ℕ, zero, suc, Bool, true, false, List, [], ◌∷◌, Errno, einval, Result, ◌==◌, if◌then◌else◌,
}
use hcfs.Base.Int.{ℤ, pos, ◌+ℤ◌}
use hcfs.Base.Tables.{update}
use hcfs.Pages.File.{Outcome, done, failed, later_outcomes, next_outcome}

-- `DIR_STATS_TYPE`.
pub record DirStats : Type 0 where
  pub num_local : ℤ
  pub num_cloud : ℤ
  pub num_hybrid : ℤ

-- The two files, by the number of the inode: what was never written reads as zeros. `locked` says that
-- `pathlookup_data_lock` is taken.
pub record DirStatFiles : Type 0 where
  pub stats : ℕ → DirStats
  pub parents : ℕ → ℕ
  pub locked : Bool
  pub outcomes : List Outcome

-- A call returns, or waits or loops forever.
pub data Run (A : Type 0) : Type 0 where
  ok : A → DirStatFiles → Run A
  err : Errno → DirStatFiles → Run A
  no_return : Run A

abbrev pub M : Type 0 → Type 0
M A = DirStatFiles → Run A

infixl 5 ◌>>=◌ ◌>>◌
abbrev pub ◌>>=◌ : {A B : Type 0} → M A → (A → M B) → M B
◌>>=◌ m f s = elim (m s) [ ok a s' ↦ f a s' | err e s' ↦ err e s' | no_return ↦ no_return ]

abbrev pub ◌>>◌ : {A B : Type 0} → M A → M B → M B
m >> k = m >>= λ _. k

abbrev pub later : DirStatFiles → DirStatFiles
later s = record s { outcomes = later_outcomes s.outcomes }

unfoldable pub outcome : Outcome → M (Unit {0})
outcome done s = ok tt s
outcome (failed e) s = err e s

unfoldable pub system_call : M (Unit {0})
unfolding outcome
system_call s = outcome (next_outcome s.outcomes) (later s)

unfoldable pub read_stats : ℕ → M DirStats
unfolding system_call
read_stats ino = system_call >> λ s. ok (s.stats ino) s

unfoldable pub write_stats : ℕ → DirStats → M (Unit {0})
unfolding system_call
write_stats ino st = system_call >> λ s. ok tt (record s { stats = update s.stats ino st })

unfoldable pub read_parent : ℕ → M ℕ
unfolding system_call
read_parent ino = system_call >> λ s. ok (s.parents ino) s

unfoldable pub add_stats : DirStats → DirStats → DirStats
add_stats a d = record {
  num_local = a.num_local +ℤ d.num_local;
  num_cloud = a.num_cloud +ℤ d.num_cloud;
  num_hybrid = a.num_hybrid +ℤ d.num_hybrid;
}

-- while (current_inode > 0), on fuel: the loop does not end where it is used up.
unfoldable pub update_path : (fuel current_inode : ℕ) → DirStats → M (Unit {0})
unfolding read_stats write_stats read_parent add_stats
update_path zero current_inode newstat s = if current_inode == 0 then ok tt s else no_return
update_path (suc fuel) current_inode newstat s =
    let rest = (do
      tmpstat ← read_stats current_inode
      write_stats current_inode (add_stats tmpstat newstat)
      parentinode ← read_parent current_inode
      update_path fuel parentinode newstat) in
    if current_inode == 0 then ok tt s else rest s

unfoldable pub update_dirstat_parent : (fuel baseinode : ℕ) → DirStats → M (Unit {0})
unfolding update_path
update_dirstat_parent fuel baseinode newstat s =
    if baseinode == 0
    then err einval s
    else (if s.locked then update_path fuel baseinode newstat s else err einval s)

-- The loop over the parents that `fetch_all_parents` gives.
unfoldable pub update_paths : (fuel : ℕ) → List ℕ → DirStats → M (Unit {0})
unfolding update_path
update_paths fuel [] newstat s = ok tt s
update_paths fuel (p ∷ ps) newstat s =
    (update_path fuel p newstat >>= λ _. update_paths fuel ps newstat) s

-- `sem_wait`, which waits forever for a lock that is not released, and `sem_post` at the end.
unfoldable pub lock : M (Unit {0})
unfolding system_call
lock = system_call >> λ s. if s.locked then no_return else ok tt (record s { locked = true })

abbrev pub unlocked : DirStatFiles → DirStatFiles
unlocked s = record s { locked = false }

abbrev pub unlock_after : {A : Type 0} → M A → M A
unlock_after m s = elim (m s) [
  | ok a s' ↦ ok a (unlocked s')
  | err e s' ↦ err e (unlocked s')
  | no_return ↦ no_return
]

unfoldable pub add_to_parents : (fuel : ℕ) → Result (List ℕ) → DirStats → M (Unit {0})
unfolding update_paths
add_to_parents fuel (Result.ok parentlist) newstat s = update_paths fuel parentlist newstat s
add_to_parents fuel (Result.err e) newstat s = err e s

-- What `fetch_all_parents` returns is an argument.
unfoldable pub update_dirstat_file :
    (fuel thisinode : ℕ) → Result (List ℕ) → DirStats → M (Unit {0})
unfolding lock add_to_parents
update_dirstat_file fuel thisinode fetched newstat s =
    if thisinode == 0
    then err einval s
    else (lock >> unlock_after (add_to_parents fuel fetched newstat)) s

abbrev zero_stats : DirStats
zero_stats = record { num_local = pos 0; num_cloud = pos 0; num_hybrid = pos 0 }

unfoldable pub reset_dirstat_lookup : (thisinode : ℕ) → M (Unit {0})
unfolding lock write_stats
reset_dirstat_lookup thisinode s =
    if thisinode == 0
    then err einval s
    else (lock >> unlock_after (write_stats thisinode zero_stats)) s

unfoldable pub read_dirstat_lookup : (thisinode : ℕ) → M DirStats
unfolding lock read_stats
read_dirstat_lookup thisinode s =
    if thisinode == 0 then err einval s else (lock >> unlock_after (read_stats thisinode)) s
