-- ===== src/HashList.antt =====
-- The hash table of lists (src/HCFS/hash_list_struct.c, hash_list_struct.h). The user gives the
-- types of keys and data and the functions on them. An operation is the code from where the list's
-- lock is taken to where it is released; the locks are in HashList/Locks.
pub mod Find
pub mod Ops
pub mod Locks
mod Tests
use hcfs.Base.{
  ℕ, zero, suc, Bool, true, false, ◌&&◌, ◌||◌, not, List, [], ◌∷◌, ◌++◌, Option, none, some, Errno,
  enomem, einval, eexist, enoent, enosys, other, Result, ok, err, ltb, ◌==◌, if◌then◌else◌,
}
use hcfs.Base.Int.{ℤ, pos, negsuc, ◌+ℤ◌, ◌-ℤ◌, is_zero_ℤ, int32}
use hcfs.Base.Tables.{update}

-- `LIST_NODE`; `next` is the list's.
pub record ListNode (Key Data : Type 0) : Type 0 where
  pub key : Key
  pub data_of : Data

-- `LIST_HEAD`, without its semaphore.
pub record ListHead (Key Data : Type 0) : Type 0 where
  pub first_entry : List (ListNode Key Data)
  pub num_entries : ℤ

-- `HASH_LIST`, without its semaphores. `data_update_ftn` returns its result and the new data.
pub record HashList (Key Data Change : Type 0) : Type 0 where
  pub table_size : ℕ
  pub hash_ftn : Key → ℤ
  pub key_cmp_ftn : Key → Key → ℤ
  pub data_update_ftn : Option (Data → Change → ℤ × Data)
  pub hash_table : ℕ → ListHead Key Data

-- Whether the calls of `calloc` for a new entry return memory.
pub record Memory : Type 0 where
  pub for_node : Bool
  pub for_key : Bool
  pub for_data : Bool

abbrev pub in_table : ℕ → ℤ → Option ℕ
in_table size (pos i) = if ltb i size then some i else none
in_table size (negsuc i) = none

module _ {Key Data : Type 0} where
  -- The loop that looks for a key: the data of the first entry that hits.
  abbrev pub find_data : (Key → Key → Bool) → Key → List (ListNode Key Data) → Option Data
  find_data hits k [] = none
  find_data hits k (n ∷ ns) = if hits k n.key then some n.data_of else find_data hits k ns

  abbrev pub remove_hit :
      (Key → Key → Bool) → Key → List (ListNode Key Data) → List (ListNode Key Data)
  remove_hit hits k [] = []
  remove_hit hits k (n ∷ ns) = if hits k n.key then ns else n ∷ remove_hit hits k ns

  abbrev pub change_entry :
      (Key → Key → Bool) → Key → Data → List (ListNode Key Data) → List (ListNode Key Data)
  change_entry hits k d [] = []
  change_entry hits k d (n ∷ ns) =
      if hits k n.key then record n { data_of = d } ∷ ns else n ∷ change_entry hits k d ns

  abbrev pub entry_added : Key → Data → ListHead Key Data → ListHead Key Data
  entry_added k d l = record {
    first_entry = record { key = k; data_of = d } ∷ l.first_entry;
    num_entries = int32 (l.num_entries +ℤ pos 1);
  }

  abbrev pub entry_removed : (Key → Key → Bool) → Key → ListHead Key Data → ListHead Key Data
  entry_removed hits k l = record {
    first_entry = remove_hit hits k l.first_entry;
    num_entries = int32 (l.num_entries -ℤ pos 1);
  }

  abbrev pub entry_changed : (Key → Key → Bool) → Key → Data → ListHead Key Data → ListHead Key Data
  entry_changed hits k d l = record l { first_entry = change_entry hits k d l.first_entry }

  -- The entries of the lists below `n`, each list from its first.
  abbrev pub entries_below : ℕ → (ℕ → ListHead Key Data) → List (ListNode Key Data)
  entries_below zero table = []
  entries_below (suc n) table = entries_below n table ++ (table n).first_entry

unfoldable pub found : {Data : Type 0} → Option Data → Result Data
found none = err enoent
found (some d) = ok d

module _ {Key Data Change : Type 0} where
  -- `key_cmp_ftn` returns 0 when hitting.
  abbrev pub key_hits : HashList Key Data Change → Key → Key → Bool
  key_hits h a b = is_zero_ℤ (h.key_cmp_ftn a b)

  -- `hash_idx`, where it is in range.
  abbrev pub bucket_of : HashList Key Data Change → Key → Option ℕ
  bucket_of h k = in_table h.table_size (h.hash_ftn k)

  abbrev pub find_at : HashList Key Data Change → ℕ → Key → Option Data
  find_at h i k = find_data (key_hits h) k (h.hash_table i).first_entry

  abbrev pub with_list : HashList Key Data Change → ℕ → ListHead Key Data → HashList Key Data Change
  with_list h i l = record h { hash_table = update h.hash_table i l }

  unfoldable pub insert_in_list :
      Memory
      → HashList Key Data Change
      → ℕ
      → Key
      → Data
      → Option Data
      → Result (Unit {0}) × HashList Key Data Change
  insert_in_list m h i k d (some hit) = (err eexist, h)
  insert_in_list m h i k d none =
      if m.for_node && m.for_key && m.for_data
      then (ok tt, with_list h i (entry_added k d (h.hash_table i)))
      else (err enomem, h)

  unfoldable pub insert_hash_list_entry :
      Memory
      → HashList Key Data Change
      → Option Key
      → Option Data
      → Result (Unit {0}) × HashList Key Data Change
  unfolding insert_in_list
  insert_hash_list_entry m h (some k) (some d) = elim (bucket_of h k) [
    | none ↦ (err einval, h)
    | some i ↦ insert_in_list m h i k d (find_at h i k)
  ]
  insert_hash_list_entry m h (some k) none = (err einval, h)
  insert_hash_list_entry m h none d = (err einval, h)

  -- The data that is copied to the caller; `has_data` says whether there is where to copy it.
  unfoldable pub lookup_hash_list_entry :
      HashList Key Data Change → Option Key → (has_data : Bool) → Result Data
  unfolding found
  lookup_hash_list_entry h (some k) true = elim (bucket_of h k) [
    | none ↦ err einval
    | some i ↦ found (find_at h i k)
  ]
  lookup_hash_list_entry h (some k) false = err einval
  lookup_hash_list_entry h none has_data = err einval

  unfoldable pub remove_at :
      HashList Key Data Change
      → ℕ
      → Key
      → Option Data
      → Result (Unit {0}) × HashList Key Data Change
  remove_at h i k (some hit) =
      (ok tt, with_list h i (entry_removed (key_hits h) k (h.hash_table i)))
  remove_at h i k none = (err enoent, h)

  unfoldable pub remove_hash_list_entry :
      HashList Key Data Change → Option Key → Result (Unit {0}) × HashList Key Data Change
  unfolding remove_at
  remove_hash_list_entry h (some k) = elim (bucket_of h k) [
    | none ↦ (err einval, h)
    | some i ↦ remove_at h i k (find_at h i k)
  ]
  remove_hash_list_entry h none = (err einval, h)

  -- The result of `data_update_ftn`, whatever its sign, and the data as the function left it.
  unfoldable pub update_at :
      (Data → Change → ℤ × Data)
      → HashList Key Data Change
      → ℕ
      → Key
      → Change
      → Option Data
      → Result (ℤ × Data) × HashList Key Data Change
  update_at ftn h i k c (some hit) =
      (ok (ftn hit c), with_list h i (entry_changed (key_hits h) k (ftn hit c).1 (h.hash_table i)))
  update_at ftn h i k c none = (err enoent, h)

  unfoldable pub update_with :
      Option (Data → Change → ℤ × Data)
      → HashList Key Data Change
      → Key
      → Change
      → Result (ℤ × Data) × HashList Key Data Change
  unfolding update_at
  update_with none h k c = (err enosys, h)
  update_with (some ftn) h k c = elim (bucket_of h k) [
    | none ↦ (err einval, h)
    | some i ↦ update_at ftn h i k c (find_at h i k)
  ]

  unfoldable pub update_hash_list_entry :
      HashList Key Data Change → Option Key → Change → Result (ℤ × Data) × HashList Key Data Change
  unfolding update_with
  update_hash_list_entry h (some k) c = update_with h.data_update_ftn h k c
  update_hash_list_entry h none c = (err einval, h)

  -- The entries that are freed, in this order.
  abbrev pub destroy_hash_list : HashList Key Data Change → List (ListNode Key Data)
  destroy_hash_list h = entries_below h.table_size h.hash_table

-- What the calls of `create_hash_list` come to: whether the two calls of `calloc` return memory, and
-- the errors of `sem_init`, for the table and for each list.
pub record Creation : Type 0 where
  pub for_list : Bool
  pub for_table : Bool
  pub table_sem : Option ℕ
  pub shared_var_sem : Option ℕ
  pub can_lock_table_sem : Option ℕ
  pub bucket_sem : ℕ → Option ℕ

-- The error behind which the later of two calls leaves `errno`.
abbrev last_error : Option ℕ → Option ℕ → Option ℕ
last_error a (some e) = some e
last_error a none = a

-- The first error of `sem_init` for the lists below `n`.
abbrev first_error : ℕ → (ℕ → Option ℕ) → Option ℕ
first_error zero inits = none
first_error (suc n) inits = elim (first_error n inits) [ some e ↦ some e | none ↦ inits n ]

abbrev sems_error : Creation → ℕ → Option ℕ
sems_error c size =
    elim (last_error (last_error c.table_sem c.shared_var_sem) c.can_lock_table_sem) [
      | some e ↦ some e
      | none ↦ first_error size c.bucket_sem
    ]

module _ {Key Data Change : Type 0} where
  abbrev pub empty_list :
      (Key → ℤ) → (Key → Key → ℤ) → Option (Data → Change → ℤ × Data) → ℕ → HashList Key Data Change
  empty_list hash cmp change size = record {
    table_size = size;
    hash_ftn = hash;
    key_cmp_ftn = cmp;
    data_update_ftn = change;
    hash_table = λ _. record { first_entry = []; num_entries = pos 0 };
  }

  unfoldable pub create_calls :
      Creation
      → (Key → ℤ)
      → (Key → Key → ℤ)
      → Option (Data → Change → ℤ × Data)
      → ℕ
      → Result (HashList Key Data Change)
  create_calls c hash cmp change size =
      if not (c.for_list && c.for_table) then err enomem else elim (sems_error c size) [
        | some e ↦ err (other e)
        | none ↦ ok (empty_list hash cmp change size)
      ]

  unfoldable pub create_hash_list :
      Creation
      → Option (Key → ℤ)
      → Option (Key → Key → ℤ)
      → Option (Data → Change → ℤ × Data)
      → (table_size key_size data_size : ℕ) → Result (HashList Key Data Change)
  create_hash_list c (some hash) (some cmp) change table_size key_size data_size =
      if (table_size == 0) || (key_size == 0) || (data_size == 0)
      then err einval
      else create_calls c hash cmp change table_size
  create_hash_list c none cmp change table_size key_size data_size = err einval
  create_hash_list c (some hash) none change table_size key_size data_size = err einval
