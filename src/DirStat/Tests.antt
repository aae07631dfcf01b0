-- ===== src/DirStat/Tests.antt =====
-- The theorem at a directory two levels below the root, and a run.
use hcfs.Base.{◌≡◌, refl, [], ◌∷◌, arith, ◌==◌, if◌then◌else◌, true, false, Result}
use hcfs.Base.Int.{ℤ, pos, negsuc, ◌+ℤ◌}
use hcfs.DirStat.{
  DirStatFiles, DirStats, Run, add_stats, err, no_return, ok, read_dirstat_lookup,
  update_dirstat_file, update_dirstat_parent, ◌>>◌,
}
use hcfs.DirStat.Walk.{Added, Ends, Stopped, update_dirstat_parent-Added}

abbrev one_uploaded : DirStats
one_uploaded = record { num_local = negsuc 0; num_cloud = pos 0; num_hybrid = pos 1 }

abbrev files : DirStatFiles
files = record {
  stats = λ _. record { num_local = pos 4; num_cloud = pos 0; num_hybrid = pos 0 };
  parents = λ i. if i == 5 then 3 else (if i == 3 then 1 else 0);
  locked = true;
  outcomes = [];
}

update_dirstat_parent-Added_example :
    Ends
      (λ _ t. Added (5 ∷ 3 ∷ 1 ∷ []) one_uploaded files t)
      (Stopped files)
      (update_dirstat_parent 3 5 one_uploaded files)
update_dirstat_parent-Added_example =
    update_dirstat_parent-Added (5 ∷ 3 ∷ 1 ∷ []) 3 5 one_uploaded files refl (omega arith)
      (refl, omega arith, (refl, omega arith, (refl, omega arith, refl))) (omega arith)

abbrev stats_of : Run DirStats → ℤ
stats_of (ok a s) = a.num_local
stats_of (err e s) = pos 0
stats_of no_return = pos 0

-- Two parents of a file are below the same directory, which counts the change twice.
counted_twice :
    stats_of (
      (update_dirstat_file 3 7 (Result.ok (5 ∷ 3 ∷ [])) one_uploaded >> read_dirstat_lookup 3)
        (record files { locked = false }))
    ≡ pos 2
unfolding update_dirstat_file read_dirstat_lookup add_stats ◌+ℤ◌
counted_twice = refl
