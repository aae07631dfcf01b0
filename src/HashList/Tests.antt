-- ===== src/HashList/Tests.antt =====
-- The hash table on concrete inputs.
use hcfs.Base.{
  ℕ, ◌+◌, ◌%◌, ◌≡◌, refl, true, false, [], ◌∷◌, none, some, ok, err, einval, ◌==◌, if◌then◌else◌,
  arith, Bool-cases, inl, inr, ==_iff, sym, ◌∙◌, ap,
}
use hcfs.Base.Int.{ℤ, pos, int32}
use hcfs.HashList.{
  HashList, Memory, Creation, key_hits, bucket_of, create_hash_list, insert_hash_list_entry,
  lookup_hash_list_entry, remove_hash_list_entry, update_hash_list_entry,
}
use hcfs.HashList.Ops.{
  IsUsable, IsSound, Sets, insert_hash_list_entry-Sets, remove_hash_list_entry-Sets,
  update_hash_list_entry-Sets,
}

abbrev add_to : ℕ → ℕ → ℤ × ℕ
add_to d c = (pos 0, d + c)

-- Four lists, two of the keys in one list.
abbrev small : HashList ℕ ℕ ℕ
small = record {
  table_size = 4;
  hash_ftn = λ k. pos (k % 4);
  key_cmp_ftn = λ a b. if a == b then pos 0 else pos 1;
  data_update_ftn = some add_to;
  hash_table = λ i.
      if i == 1
      then record {
        first_entry = record { key = 5; data_of = 50 } ∷ record { key = 1; data_of = 10 } ∷ [];
        num_entries = pos 2;
      }
      else record { first_entry = []; num_entries = pos 0 };
}

hits_eq : (a b : ℕ) → key_hits small a b ≡ (a == b)
hits_eq a b = ground arith

small-IsUsable : IsUsable small
small-IsUsable = record {
  keyed = record {
    same = λ a. ground arith;
    swapped = λ a b. ground arith;
    chained = λ a b c h. ground arith;
  };
  hashed = λ a b h. ap (λ k. bucket_of small k) ((==_iff a b).0 (sym (hits_eq a b) ∙ h));
}

small-IsSound : IsSound small
unfolding int32
small-IsSound i = elim (Bool-cases (i == 1)) [
  | inl e ↦ rw e (record { apart = (refl, (refl, tt)); counted = refl })
  | inr e ↦ rw e (record { apart = tt; counted = refl })
]

abbrev memory : Memory
memory = record { for_node = true; for_key = true; for_data = true }

abbrev no_memory : Memory
no_memory = record { for_node = true; for_key = true; for_data = false }

insert_hash_list_entry-Sets_example :
    (u : HashList ℕ ℕ ℕ) × (insert_hash_list_entry memory small (some 9) (some 90) ≡ (ok tt, u))
    × Sets small 9 (some 90) u
insert_hash_list_entry-Sets_example =
    insert_hash_list_entry-Sets small small-IsUsable small-IsSound 9 1 refl memory 90 refl refl

remove_hash_list_entry-Sets_example :
    (u : HashList ℕ ℕ ℕ) × (remove_hash_list_entry small (some 1) ≡ (ok tt, u))
    × Sets small 1 none u
remove_hash_list_entry-Sets_example =
    remove_hash_list_entry-Sets small small-IsUsable small-IsSound 1 1 refl 10 refl

update_hash_list_entry-Sets_example :
    (u : HashList ℕ ℕ ℕ) × (update_hash_list_entry small (some 1) 7 ≡ (ok (pos 0, 17), u))
    × Sets small 1 (some 17) u
update_hash_list_entry-Sets_example =
    update_hash_list_entry-Sets small small-IsUsable small-IsSound 1 1 refl add_to 7 10 refl refl

no_key : lookup_hash_list_entry small none true ≡ err einval
unfolding lookup_hash_list_entry
no_key = refl

creation : Creation
creation = record {
  for_list = true;
  for_table = true;
  table_sem = none;
  shared_var_sem = none;
  can_lock_table_sem = none;
  bucket_sem = λ _. none;
}

no_size :
    create_hash_list creation
      (some small.hash_ftn)
      (some small.key_cmp_ftn)
      small.data_update_ftn
      0
      8
      8
    ≡ err einval
unfolding create_hash_list
no_size = refl
