-- ===== src/HashList/Ops.antt =====
-- The operations on the hash table as changes of a map.
use hcfs.Base.{
  ℕ, ◌≡◌, refl, Bool, true, false, ◌&&◌, Option, none, some, ok, err, eexist, enoent, enomem, ◌==◌,
  if◌then◌else◌, Bool-cases, Option-cases, inl, inr, ==_iff, length, ap, ◌∙◌, sym,
}
use hcfs.Base.Int.{ℤ, pos, int32}
use hcfs.Base.Tables.{update}
use hcfs.HashList.{
  ListHead, HashList, Memory, key_hits, bucket_of, find_at, find_data, with_list, entry_added,
  entry_removed, entry_changed, insert_in_list, insert_hash_list_entry, found,
  lookup_hash_list_entry, remove_at, remove_hash_list_entry, update_at, update_with,
  update_hash_list_entry,
}
use hcfs.HashList.Find.{
  IsKeyed, IsApart, find-change, find-remove, find-here, change-IsApart, remove-IsApart,
  length-change_entry, length-remove_hit, counted_up, counted_down,
}

module _ {Key Data Change : Type 0} where
  -- The functions of the user: keys that hit one another have the same hash.
  pub record IsUsable (h : HashList Key Data Change) : Type 0 where
    pub keyed : IsKeyed (key_hits h)
    pub hashed : (a b : Key) → key_hits h a b ≡ true → bucket_of h a ≡ bucket_of h b

  pub record IsList (h : HashList Key Data Change) (l : ListHead Key Data) : Type 0 where
    pub apart : IsApart (key_hits h) l.first_entry
    pub counted : l.num_entries ≡ int32 (pos (length l.first_entry))

  abbrev pub IsSound : HashList Key Data Change → Type 0
  IsSound h = (i : ℕ) → IsList h (h.hash_table i)

  -- The map that the table stands for.
  abbrev pub lookup : HashList Key Data Change → Key → Option Data
  lookup h k = elim (bucket_of h k) [ none ↦ none | some i ↦ find_at h i k ]

  -- The table `u` is `h` with the data of `k` being `new`, and sound.
  abbrev pub Sets : HashList Key Data Change → Key → Option Data → HashList Key Data Change → Type 0
  Sets h k new u =
      ((j : Key) → lookup u j ≡ (if key_hits h k j then new else lookup h j)) × IsSound u

module _ {Key Data : Type 0} (hits : Key → Key → Bool) where
  -- One list is stored, and read in another or the same place.
  stored-find :
      (t : ℕ → ListHead Key Data) (i m : ℕ) (j : Key) (b : Bool) (l : ListHead Key Data)
      (new : Option Data)
      → (b ≡ true → i ≡ m)
      → find_data hits j l.first_entry ≡ (if b then new else find_data hits j (t i).first_entry)
      → find_data hits j (update t i l m).first_entry
        ≡ (if b then new else find_data hits j (t m).first_entry)
  stored-find t i m j b l new same e = elim (Bool-cases (i == m)) [
    | inl eq ↦ let i_eq : i ≡ m = (==_iff i m).0 eq in rw eq (rw i_eq at e)
    | inr ne ↦ rw ne (kept b same ne)
  ]
    where
      kept :
          (b : Bool)
          → (b ≡ true → i ≡ m)
          → (i == m) ≡ false
          → find_data hits j (t m).first_entry
            ≡ (if b then new else find_data hits j (t m).first_entry)
      kept true same ne = cc ((==_iff i m).1 (same refl))
      kept false same ne = refl

some_eq : {A : Type 0} (a b : A) → some a ≡ some b → a ≡ b
some_eq a b e = cc

module _ {Key Data Change : Type 0} (h : HashList Key Data Change) (usable : IsUsable h)
    (sound : IsSound h) (k : Key) (i : ℕ) (in_range : bucket_of h k ≡ some i) where
  stored-lookup :
      (l : ListHead Key Data) (new : Option Data)
      → ((j : Key)
          → find_data (key_hits h) j l.first_entry
            ≡ (if key_hits h k j then new else find_at h i j))
      → (j : Key) → lookup (with_list h i l) j ≡ (if key_hits h k j then new else lookup h j)
  stored-lookup l new f j = elim (Option-cases (bucket_of h j)) [
    | inl e ↦
        rw (lookup, e) (outside (key_hits h k j) (λ hit. sym in_range ∙ usable.hashed k j hit ∙ e))
    | inr (m, e) ↦
        rw (lookup, e)
          (stored-find (key_hits h) h.hash_table i m j (key_hits h k j) l new
            (λ hit. some_eq i m (sym in_range ∙ usable.hashed k j hit ∙ e)) (f j))
  ]
    where
      outside : (b : Bool) → (b ≡ true → some i ≡ none) → none ≡ (if b then new else none)
      outside true wrong = cc (wrong refl)
      outside false wrong = refl

  stored-IsSound : (l : ListHead Key Data) → IsList h l → IsSound (with_list h i l)
  stored-IsSound l own m = elim (Bool-cases (i == m)) [
    | inl eq ↦ rw eq (record { apart = own.apart; counted = own.counted })
    | inr ne ↦ rw ne (record { apart = (sound m).apart; counted = (sound m).counted })
  ]

  with_list-Sets :
      (l : ListHead Key Data) (new : Option Data)
      → IsList h l
      → ((j : Key)
          → find_data (key_hits h) j l.first_entry
            ≡ (if key_hits h k j then new else find_at h i j))
      → Sets h k new (with_list h i l)
  with_list-Sets l new own f = (stored-lookup l new f, stored-IsSound l own)

  lookup_here : lookup h k ≡ find_at h i k
  lookup_here = rw (lookup, in_range)

  insert-new :
      (m : Memory) (d : Data) (o : Option Data)
      → m.for_node && m.for_key && m.for_data ≡ true
      → o ≡ none
      → insert_in_list m h i k d o ≡ (ok tt, with_list h i (entry_added k d (h.hash_table i)))
  unfolding insert_in_list
  insert-new m d o mem e = rw (e, mem)

  -- On a sound table of usable functions, with memory, inserting a key in range that no entry hits
  -- succeeds: then every key that it hits has the new data, every other key what it had, and the
  -- table is sound, the keys of each list different and its counter its length modulo 2^32.
  pub insert_hash_list_entry-Sets :
      (m : Memory) (d : Data)
      → m.for_node && m.for_key && m.for_data ≡ true
      → lookup h k ≡ none
      → (u : HashList Key Data Change) × (insert_hash_list_entry m h (some k) (some d) ≡ (ok tt, u))
        × Sets h k (some d) u
  unfolding insert_hash_list_entry
  insert_hash_list_entry-Sets m d mem absent = (
    _,
    rw (insert_hash_list_entry, in_range) (insert-new m d _ mem (sym lookup_here ∙ absent)),
    with_list-Sets (entry_added k d (h.hash_table i)) (some d)
        (record {
          apart = (sym lookup_here ∙ absent, (sound i).apart);
          counted = counted_up _ _ (sound i).counted;
        })
        (λ j. find-here (key_hits h) usable.keyed k j d _),
  )

  removed :
      (d : Data) (o : Option Data)
      → o ≡ some d
      → remove_at h i k o ≡ (ok tt, with_list h i (entry_removed (key_hits h) k (h.hash_table i)))
  unfolding remove_at
  removed d o e = rw e

  -- On a sound table of usable functions, removing a key in range that some entry hits succeeds:
  -- then every key that it hits has no data, every other key what it had, and the table is sound.
  pub remove_hash_list_entry-Sets :
      (d : Data)
      → lookup h k ≡ some d
      → (u : HashList Key Data Change) × (remove_hash_list_entry h (some k) ≡ (ok tt, u))
        × Sets h k none u
  unfolding remove_hash_list_entry
  remove_hash_list_entry-Sets d present = (
    _,
    rw (remove_hash_list_entry, in_range) (removed d _ (sym lookup_here ∙ present)),
    with_list-Sets (entry_removed (key_hits h) k (h.hash_table i)) none
        (record {
          apart = remove-IsApart (key_hits h) usable.keyed k _ (sound i).apart;
          counted =
              counted_down _ _ _ (sound i).counted
                (length-remove_hit (key_hits h) usable.keyed k d _ (sym lookup_here ∙ present));
        })
        (λ j. find-remove (key_hits h) usable.keyed k j _ (sound i).apart),
  )

  updated :
      (ftn : Data → Change → ℤ × Data) (c : Change) (d : Data) (o : Option Data)
      → o ≡ some d
      → update_at ftn h i k c o
        ≡ (ok (ftn d c), with_list h i (entry_changed (key_hits h) k (ftn d c).1 (h.hash_table i)))
  unfolding update_at
  updated ftn c d o e = rw e

  update_with-found :
      (ftn : Data → Change → ℤ × Data) (c : Change) (d : Data)
      (o : Option (Data → Change → ℤ × Data))
      → o ≡ some ftn
      → lookup h k ≡ some d
      → update_with o h k c
        ≡ (ok (ftn d c), with_list h i (entry_changed (key_hits h) k (ftn d c).1 (h.hash_table i)))
  unfolding update_with
  update_with-found ftn c d o e present =
      rw (e, update_with, in_range) (updated ftn c d _ (sym lookup_here ∙ present))

  -- On a sound table of usable functions with a function for changes, updating a key in range that
  -- some entry hits returns what this function returns for the data: then every key that it hits has
  -- the changed data, whatever the function's result, every other key what it had, and the table is
  -- sound.
  pub update_hash_list_entry-Sets :
      (ftn : Data → Change → ℤ × Data) (c : Change) (d : Data)
      → h.data_update_ftn ≡ some ftn
      → lookup h k ≡ some d
      → (u : HashList Key Data Change) × (update_hash_list_entry h (some k) c ≡ (ok (ftn d c), u))
        × Sets h k (some (ftn d c).1) u
  unfolding update_hash_list_entry
  update_hash_list_entry-Sets ftn c d has_ftn present = (
    _,
    update_with-found ftn c d _ has_ftn present,
    with_list-Sets (entry_changed (key_hits h) k (ftn d c).1 (h.hash_table i)) (some (ftn d c).1)
        (record {
          apart =
              change-IsApart (key_hits h) usable.keyed k d _ _ (sound i).apart
                (sym lookup_here ∙ present);
          counted =
              (sound i).counted
              ∙ ap (λ n. int32 (pos n)) (sym (length-change_entry (key_hits h) usable.keyed k _ _));
        })
        (λ j. find-change (key_hits h) usable.keyed k j d _ _ (sym lookup_here ∙ present)),
  )

  -- For a key in range that some entry hits, looking up returns the entry's data, and inserting
  -- returns EEXIST and changes nothing, with or without memory.
  pub present_key :
      (m : Memory) (d new : Data)
      → lookup h k ≡ some d
      → (lookup_hash_list_entry h (some k) true ≡ ok d)
        × (insert_hash_list_entry m h (some k) (some new) ≡ (err eexist, h))
  unfolding lookup_hash_list_entry insert_hash_list_entry
  present_key m d new present = (
    rw (lookup_hash_list_entry, in_range) (found_some _ d here),
    rw (insert_hash_list_entry, in_range) (exists _ here),
  )
    where
      here : find_at h i k ≡ some d
      here = sym lookup_here ∙ present

      found_some : (o : Option Data) (d : Data) → o ≡ some d → found o ≡ ok d
      found_some o d e = rw (found, e)

      exists : (o : Option Data) → o ≡ some d → insert_in_list m h i k new o ≡ (err eexist, h)
      exists o e = rw (insert_in_list, e)

  -- For a key in range that no entry hits, looking up, removing and updating return ENOENT, and
  -- inserting returns ENOMEM where one of its three allocations fails; none of them changes the
  -- table.
  pub absent_key :
      (m : Memory) (new : Data) (ftn : Data → Change → ℤ × Data) (c : Change)
      → h.data_update_ftn ≡ some ftn
      → m.for_node && m.for_key && m.for_data ≡ false
      → lookup h k ≡ none
      → (lookup_hash_list_entry h (some k) true ≡ err enoent)
        × (remove_hash_list_entry h (some k) ≡ (err enoent, h))
        × (update_hash_list_entry h (some k) c ≡ (err enoent, h))
        × (insert_hash_list_entry m h (some k) (some new) ≡ (err enomem, h))
  unfolding lookup_hash_list_entry remove_hash_list_entry update_hash_list_entry
      insert_hash_list_entry
  absent_key m new ftn c has_ftn mem absent = (
    rw (lookup_hash_list_entry, in_range) (no_data _ here),
    rw (remove_hash_list_entry, in_range) (no_entry _ here),
    no_change _ has_ftn,
    rw (insert_hash_list_entry, in_range) (no_memory _ here),
  )
    where
      here : find_at h i k ≡ none
      here = sym lookup_here ∙ absent

      no_data : (o : Option Data) → o ≡ none → found o ≡ err enoent
      no_data o e = rw (found, e)

      no_entry : (o : Option Data) → o ≡ none → remove_at h i k o ≡ (err enoent, h)
      no_entry o e = rw (remove_at, e)

      not_updated : (o : Option Data) → o ≡ none → update_at ftn h i k c o ≡ (err enoent, h)
      not_updated o e = rw (update_at, e)

      no_change :
          (o : Option (Data → Change → ℤ × Data))
          → o ≡ some ftn
          → update_with o h k c ≡ (err enoent, h)
      no_change o e = rw (e, update_with, in_range) (not_updated _ here)

      no_memory : (o : Option Data) → o ≡ none → insert_in_list m h i k new o ≡ (err enomem, h)
      no_memory o e = rw (insert_in_list, e) (rw mem)
