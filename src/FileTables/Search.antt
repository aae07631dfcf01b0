-- ===== src/FileTables/Search.antt =====
-- The search for a free index: it ends when there is one.
use hcfs.Base.{ℕ, ◌+◌, ◌-◌, ◌%◌, ◌<◌, zero, suc, ◌≡◌, refl, Option, some, arith, ◌⊎◌, inl, inr, ap}
use hcfs.Base.Family.{sum_below, zero_or_more}
use hcfs.FileTables.{max_open_file_entries, FhFlag, no_fh, is_fh, is_dirh, free_index}

abbrev pub is_used : FhFlag → ℕ
is_used no_fh = 0
is_used is_fh = 1
is_used is_dirh = 1

abbrev FreeBelow : ℕ → (ℕ → FhFlag) → Type 0
FreeBelow n table = (j : ℕ) × (j < n) × (table j ≡ no_fh)

higher : (n : ℕ) (table : ℕ → FhFlag) → FreeBelow n table → FreeBelow (suc n) table
higher n table (j, lt, e) = (j, omega arith, e)

-- The last index is free, or it counts and one below it is.
free_at :
    (n : ℕ) (table : ℕ → FhFlag) (f : FhFlag)
    → table n ≡ f
    → is_used f + sum_below is_used n table < suc n
    → (sum_below is_used n table < n → FreeBelow n table)
    → FreeBelow (suc n) table
free_at n table no_fh e few lower = (n, omega arith, e)
free_at n table is_fh e few lower = higher n table (lower (omega arith))
free_at n table is_dirh e few lower = higher n table (lower (omega arith))

-- Where not all are used, some index is free.
pub free_below :
    (n : ℕ) (table : ℕ → FhFlag)
    → sum_below is_used n table < n
    → (j : ℕ) × (j < n) × (table j ≡ no_fh)
unfolding sum_below
free_below zero table few = absurd (omega arith)
free_below (suc n) table few = free_at n table (table n) refl few (free_below n table)

-- The rounds from an index to another, wrapping around at the end.
abbrev rounds : ℕ → ℕ → ℕ
rounds i j = (j + max_open_file_entries - i) % max_open_file_entries

abbrev pub Found : (ℕ → FhFlag) → Option ℕ → Type 0
Found table o = (k : ℕ) × (o ≡ some k) × (k < max_open_file_entries) × (table k ≡ no_fh)

rounds_step :
    (i j fuel : ℕ)
    → i < max_open_file_entries
    → j < max_open_file_entries
    → rounds i j < suc fuel
    → (i ≡ j) ⊎ (rounds ((i + 1) % max_open_file_entries) j < fuel)
rounds_step i j fuel lt lt' h = elim (zero_or_more (rounds i j)) [
  | inl z ↦ inl (omega arith)
  | inr more ↦ inr (omega arith)
]

Found-step :
    (fuel i j : ℕ) (table : ℕ → FhFlag) (f : FhFlag)
    → table i ≡ f
    → i < max_open_file_entries
    → table j ≡ no_fh
    → (i ≡ j) ⊎ (rounds ((i + 1) % max_open_file_entries) j < fuel)
    → (rounds ((i + 1) % max_open_file_entries) j < fuel
        → Found table (free_index fuel table ((i + 1) % max_open_file_entries)))
    → Found table (free_index (suc fuel) table i)
unfolding free_index
Found-step fuel i j table no_fh e lt free step later = rw (free_index, e) (i, refl, lt, e)
Found-step fuel i j table is_fh e lt free (inl same) later = cc (ap table same)
Found-step fuel i j table is_fh e lt free (inr less) later = rw (free_index, e) (later less)
Found-step fuel i j table is_dirh e lt free (inl same) later = cc (ap table same)
Found-step fuel i j table is_dirh e lt free (inr less) later = rw (free_index, e) (later less)

pub free_index-Found :
    (fuel i j : ℕ) (table : ℕ → FhFlag)
    → i < max_open_file_entries
    → j < max_open_file_entries
    → table j ≡ no_fh
    → rounds i j < fuel
    → Found table (free_index fuel table i)
unfolding free_index
free_index-Found zero i j table lt lt' free h = absurd (omega arith)
free_index-Found (suc fuel) i j table lt lt' free h =
    Found-step fuel i j table (table i) refl lt free (rounds_step i j fuel lt lt' h)
      (λ less. free_index-Found fuel _ j table (omega arith) lt' free less)
