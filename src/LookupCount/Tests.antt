-- ===== src/LookupCount/Tests.antt =====
-- A small table of lookup counts, and the theorems on lookup counts at it.
use hcfs.Base.{
  ℕ, ◌≡◌, refl, Bool, true, false, List, [], ◌∷◌, Option, none, some, ok, ◌==◌, Bool-cases, inl,
  inr, ==_iff,
}
use hcfs.Base.Int.{ℤ, pos, int32, ◌+ℤ◌, ◌-ℤ◌}
use hcfs.Base.Tables.{update}
use hcfs.LookupCount.{
  LookupNode, LookupTable, Calls, lookup_increase, lookup_decrease, num_lookup_entries,
}
use hcfs.LookupCount.Inv.{IsTable, IsQuiet}
use hcfs.LookupCount.Ops.{Sets, lookup_increase-Sets, lookup_decrease-Sets}
use hcfs.LookupCount.Destroy.{Emptied, lookup_destroy, lookup_destroy-Emptied, Selected, nodes_from}
use hcfs.LookupCount.Init.{unused}

abbrev calls : Calls
calls = record { wait = none; post = none; has_memory = true }

calls-IsQuiet : IsQuiet calls
calls-IsQuiet = record { waits = refl; posts = refl; allocates = refl }

abbrev node : ℤ → Bool → LookupNode
node n mark = record { this_inode = 5; lookup_count = n; to_delete = mark; d_type = 1 }

abbrev table : LookupTable
table = update (λ i. unused) 5 (record { entry_sem = 1; head = node (pos 2) false ∷ [] })

table-IsTable : IsTable table
table-IsTable i = elim (Bool-cases (5 == i)) [
  | inl e ↦ let i_eq : 5 ≡ i = (==_iff 5 i).0 e in rw e (i_eq, refl, tt)
  | inr e ↦ rw e tt
]

abbrev unlocked : (i : ℕ) → (table i).entry_sem ≡ 1
unlocked i = elim (Bool-cases (5 == i)) [ inl e ↦ rw e | inr e ↦ rw e ]

lookup_increase-Sets_example :
    (u : LookupTable) × (lookup_increase calls table 5 (pos 3) 1 ≡ some (ok (pos 5), u))
    × Sets table 5 (some (node (pos 5) false)) u
unfolding int32 ◌+ℤ◌
lookup_increase-Sets_example =
    lookup_increase-Sets calls calls-IsQuiet table table-IsTable 5 refl (pos 3) 1

lookup_decrease-Sets_example :
    (u : LookupTable) × (lookup_decrease calls table 5 (pos 7) ≡ some (ok (pos 0, false, 1), u))
    × Sets table 5 none u
unfolding int32 ◌-ℤ◌
lookup_decrease-Sets_example =
    lookup_decrease-Sets calls calls-IsQuiet table table-IsTable 5 refl (node (pos 2) false) (pos 7)
      refl

abbrev no_error : ℕ → Option ℕ
no_error i = none

lookup_destroy-Emptied_example :
    (u : LookupTable) × (removed : List LookupNode) × (lookup_destroy no_error no_error
        (λ i. i == 5)
        table
      ≡ some (ok tt, u, removed))
    × Selected (λ i. i == 5) (nodes_from num_lookup_entries 0 table) removed
    × Emptied num_lookup_entries 0 table u
lookup_destroy-Emptied_example =
    lookup_destroy-Emptied no_error no_error (λ i. i == 5) (λ i. (refl, refl)) table unlocked
