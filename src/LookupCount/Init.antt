-- ===== src/LookupCount/Init.antt =====
-- `lookup_init`: the loop over all lists. (The check for a null table is the caller's.)
use hcfs.Base.{
  ℕ, ◌+◌, zero, suc, ◌≡◌, refl, [], Option, none, some, Result, ok, err, other, ltb, leb, ◌&&◌,
  if◌then◌else◌, arith,
}
use hcfs.Base.Tables.{update}
use hcfs.LookupCount.{LookupHead, LookupTable, num_lookup_entries}

abbrev pub unused : LookupHead
unused = record { entry_sem = 1; head = [] }

-- `fails` are the errors of `sem_init`.
unfoldable pub init_from :
    (fails : ℕ → Option ℕ) → (left count : ℕ) → LookupTable → Result (Unit {0}) × LookupTable
init_from fails zero count t = (ok tt, t)
init_from fails (suc left) count t = elim (fails count) [
  | some e ↦ (err (other e), t)
  | none ↦ init_from fails left (count + 1) (update t count unused)
]

unfoldable pub lookup_init : (fails : ℕ → Option ℕ) → LookupTable → Result (Unit {0}) × LookupTable
unfolding init_from
lookup_init fails t = init_from fails num_lookup_entries 0 t

module _ (fails : ℕ → Option ℕ) (no_error : (i : ℕ) → fails i ≡ none) where
  init_from-ok : (left count : ℕ) (t : LookupTable) → (init_from fails left count t).0 ≡ ok tt
  unfolding init_from
  init_from-ok zero count t = refl
  init_from-ok (suc left) count t =
      rw (init_from, no_error count) (init_from-ok left (count + 1) (update t count unused))

  init_from-head :
      (left count i : ℕ) (t : LookupTable)
      → (init_from fails left count t).1 i
        ≡ (if leb count i && ltb i (count + left) then unused else t i)
  unfolding init_from
  init_from-head zero count i t = ground arith
  init_from-head (suc left) count i t =
      rw (init_from, no_error count)
        (ground (arith, init_from-head left (count + 1) i (update t count unused)))

  -- Where no `sem_init` fails, `lookup_init` returns 0, and exactly the 65536 lists of the table
  -- are empty and unlocked then; what lies behind the table is as it was.
  pub lookup_init-unused :
      (t : LookupTable)
      → ((lookup_init fails t).0 ≡ ok tt)
        × ((i : ℕ) → (lookup_init fails t).1 i ≡ (if ltb i num_lookup_entries then unused else t i))
  unfolding lookup_init
  lookup_init-unused t = (
    init_from-ok num_lookup_entries 0 t,
    λ i. ground (arith, init_from-head num_lookup_entries 0 i t),
  )
