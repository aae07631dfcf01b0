-- ===== src/PkgCache/Insert.antt =====
-- `insert_cache_pkg` and `remove_cache_pkg` as changes of a map.
use hcfs.Base.{
  ℕ, ◌+◌, ◌≤◌, suc, zero, ◌≡◌, refl, Bool, true, false, List, [], ◌∷◌, Option, none, some, Result,
  ok, ◌==◌, if◌then◌else◌, length, arith, Bool-cases, inl, inr, ◌⊎◌, ==_iff, ◌∙◌, sym, ap, subst,
}
use hcfs.Base.Int.{pos, ◌+ℤ◌, ◌-ℤ◌, is_zero_ℤ, pos_add_one}
use hcfs.Base.Tables.{update}
use hcfs.PkgCache.{
  Name, PkgCache, PkgCacheEntry, PkgEntryHead, name_eq, find_entry, drop_last, take_bytes,
  max_pkg_entries, pkg_hash_of, new_pkg_entry, count_query, insert_new, insert_bucket,
  insert_cache_pkg,
}
use hcfs.PkgCache.Entries.{name_eq_refl, name_eq-swap, find-drop_none, drop-AreApart, length-drop}
use hcfs.PkgCache.Laws.{entry_of, IsBucket, IsCache, stored-IsCache, hit-IsBucket}

take_bytes-id : (n : ℕ) (cs : Name) → length cs ≤ n → take_bytes n cs ≡ cs
take_bytes-id zero [] h = refl
take_bytes-id zero (c ∷ cs) h = ground arith
take_bytes-id (suc n) [] h = refl
take_bytes-id (suc n) (c ∷ cs) h = ap (λ l. c ∷ l) (take_bytes-id n cs (omega (arith, h)))

full-length : (n : ℕ) → is_zero_ℤ (pos n -ℤ pos max_pkg_entries) ≡ true → n ≡ 8
unfolding ◌-ℤ◌
full-length n h = ground arith

room-length : (n : ℕ) → is_zero_ℤ (pos n -ℤ pos max_pkg_entries) ≡ false → n ≤ 8 → n + 1 ≤ 8
unfolding ◌-ℤ◌
room-length n h k = ground arith

length-drop_full :
    (es : List PkgCacheEntry) → length es ≡ 8 → suc (length (drop_last es)) ≡ length es
length-drop_full [] h = omega (arith, h)
length-drop_full (e ∷ es) h = ap suc (length-drop e es)

find-drop :
    (name : Name) (es : List PkgCacheEntry)
    → (find_entry name (drop_last es) ≡ find_entry name es)
      ⊎ (find_entry name (drop_last es) ≡ none)
find-drop name [] = inl refl
find-drop name (e ∷ []) = inr refl
find-drop name (e ∷ d ∷ es) = elim (Bool-cases (name_eq name e.pkgname)) [
  | inl s ↦ inl (rw s)
  | inr o ↦ elim (find-drop name (d ∷ es)) [
    | inl same ↦ inl (rw (o, same))
    | inr gone ↦ inr (rw (o, gone))
  ]
]

-- The new bucket, as the test for a full one has it.
abbrev pub grown : Bool → PkgCacheEntry → PkgEntryHead → PkgEntryHead
grown full e h =
    if full
    then record h { first_pkg_entry = e ∷ drop_last h.first_pkg_entry }
    else record { first_pkg_entry = e ∷ h.first_pkg_entry; num_pkgs = h.num_pkgs +ℤ pos 1 }

abbrev pub is_full : PkgEntryHead → Bool
is_full h = is_zero_ℤ (h.num_pkgs -ℤ pos max_pkg_entries)

insert_new-grown :
    (e : PkgCacheEntry) (i : ℕ) (c : PkgCache)
    → (insert_new e i c).pkg_hash
      ≡ update c.pkg_hash i (grown (is_full (c.pkg_hash i)) e (c.pkg_hash i))
unfolding insert_new
insert_new-grown e i c = elim (Bool-cases (is_full (c.pkg_hash i))) [
  | inl full ↦ rw full
  | inr room ↦ rw room
]

module _ (h : PkgEntryHead) (b : IsBucket h) (e : PkgCacheEntry)
    (absent : find_entry e.pkgname h.first_pkg_entry ≡ none) where
  abbrev es : List PkgCacheEntry
  es = h.first_pkg_entry

  grown-IsBucket : (full : Bool) → is_full h ≡ full → IsBucket (grown full e h)
  grown-IsBucket true f = record {
    apart = (find-drop_none e.pkgname es absent, drop-AreApart es b.apart);
    counted = b.counted ∙ ap pos (sym (length-drop_full es is_8));
    bounded = omega (arith, length-drop_full es is_8, is_8);
  }
    where
      is_8 : length es ≡ 8
      is_8 = full-length (length es) (rw b.counted at f)
  grown-IsBucket false f = record {
    apart = (absent, b.apart);
    counted = ap (λ n. n +ℤ pos 1) b.counted ∙ pos_add_one (length es) ∙ ap pos add_one;
    bounded = omega (arith, room-length (length es) (rw b.counted at f) b.bounded);
  }
    where
      add_one : length es + 1 ≡ suc (length es)
      add_one = omega arith

  grown-find :
      (full : Bool) (other : Name)
      → name_eq other e.pkgname ≡ false
      → (find_entry other (grown full e h).first_pkg_entry ≡ find_entry other es)
        ⊎ (find_entry other (grown full e h).first_pkg_entry ≡ none)
  grown-find true other d = rw d (find-drop other es)
  grown-find false other d = rw d (inl refl)

  grown-own : (full : Bool) → find_entry e.pkgname (grown full e h).first_pkg_entry ≡ some e
  grown-own true = rw (name_eq_refl e.pkgname)
  grown-own false = rw (name_eq_refl e.pkgname)

stored-either :
    (f : ℕ → PkgEntryHead) (i k : ℕ) (other : Name) (h : PkgEntryHead)
    → (find_entry other h.first_pkg_entry ≡ find_entry other (f i).first_pkg_entry)
      ⊎ (find_entry other h.first_pkg_entry ≡ none)
    → (find_entry other (update f i h k).first_pkg_entry ≡ find_entry other (f k).first_pkg_entry)
      ⊎ (find_entry other (update f i h k).first_pkg_entry ≡ none)
stored-either f i k other h e = elim (Bool-cases (i == k)) [
  | inl eq ↦ let i_eq : i ≡ k = (==_iff i k).0 eq in rw eq (rw i_eq at e)
  | inr ne ↦ rw ne (inl refl)
]

-- What the cache holds for a name that is inserted.
abbrev pub kept_or_new : Option PkgCacheEntry → Name → ℕ → PkgCacheEntry
kept_or_new none name uid = record { pkgname = name; pkguid = uid }
kept_or_new (some e) name uid = e

-- After the insertion of `name` with `uid`.
abbrev pub Inserts : PkgCache → Name → ℕ → Result (Unit {0}) → PkgCache → Type 0
Inserts c name uid r c' =
    (r ≡ ok tt)
    × (entry_of c' name ≡ some (kept_or_new (entry_of c name) name uid))
    × ((other : Name)
        → (name_eq name other ≡ true)
          ⊎ (entry_of c' other ≡ entry_of c other)
          ⊎ (entry_of c' other ≡ none))
    × IsCache c'

module _ (name : Name) (uid : ℕ) (c : PkgCache) (sound : IsCache c)
    (short : length name ≤ 254) where
  abbrev bucket : PkgEntryHead
  bucket = c.pkg_hash (pkg_hash_of name)

  abbrev fresh : PkgCacheEntry
  fresh = record { pkgname = name; pkguid = uid }

  fresh-eq : new_pkg_entry name uid ≡ fresh
  unfolding new_pkg_entry
  fresh-eq = ap (λ n. record { pkgname = n; pkguid = uid }) (take_bytes-id 254 name short)

  other-kept :
      (other : Name)
      → entry_of c name ≡ none
      → name_eq name other ≡ false
      → (find_entry other
            (update c.pkg_hash
              (pkg_hash_of name)
              (grown (is_full bucket) fresh bucket)
              (pkg_hash_of other)).first_pkg_entry
          ≡ entry_of c other)
        ⊎ (find_entry other
              (update c.pkg_hash
                (pkg_hash_of name)
                (grown (is_full bucket) fresh bucket)
                (pkg_hash_of other)).first_pkg_entry
            ≡ none)
  other-kept other absent d =
      stored-either c.pkg_hash (pkg_hash_of name) (pkg_hash_of other) other _ (
        grown-find bucket (sound (pkg_hash_of name)) fresh absent (is_full bucket) other
          (name_eq-swap other name ∙ d))

  abbrev with_fresh : ℕ → PkgEntryHead
  with_fresh = update c.pkg_hash (pkg_hash_of name) (grown (is_full bucket) fresh bucket)

  same-or_kept :
      (other : Name)
      → entry_of c name ≡ none
      → (name_eq name other ≡ true)
        ⊎ (find_entry other (with_fresh (pkg_hash_of other)).first_pkg_entry ≡ entry_of c other)
        ⊎ (find_entry other (with_fresh (pkg_hash_of other)).first_pkg_entry ≡ none)
  same-or_kept other absent = elim (Bool-cases (name_eq name other)) [
    | inl s ↦ inl s
    | inr d ↦ inr (other-kept other absent d)
  ]

  missed-Inserts :
      (c' : PkgCache)
      → entry_of c name ≡ none
      → c'.pkg_hash ≡ with_fresh
      → Inserts c name uid (ok tt) c'
  missed-Inserts c' absent q = (
    refl,
    ap (λ f. find_entry name (f (pkg_hash_of name)).first_pkg_entry) q
        ∙ rw ((==_iff (pkg_hash_of name) (pkg_hash_of name)).1 refl, absent)
            (grown-own bucket (sound (pkg_hash_of name)) fresh absent (is_full bucket)),
    λ other.
        subst
          (λ f.
            (name_eq name other ≡ true)
            ⊎ (find_entry other (f (pkg_hash_of other)).first_pkg_entry ≡ entry_of c other)
            ⊎ (find_entry other (f (pkg_hash_of other)).first_pkg_entry ≡ none))
          (sym q) (same-or_kept other absent),
    λ i.
        subst (λ f. IsBucket (f i)) (sym q)
          (stored-IsCache c.pkg_hash (pkg_hash_of name) _ sound
            (grown-IsBucket bucket (sound (pkg_hash_of name)) fresh absent (is_full bucket) refl)
            i),
  )

  abbrev missed : PkgCache
  missed =
      insert_new (new_pkg_entry name uid) (pkg_hash_of name)
        (record c { query_count = c.query_count + 1 })

  missed-ran : entry_of c name ≡ none → insert_cache_pkg true name uid c ≡ (ok tt, missed)
  unfolding insert_cache_pkg insert_bucket count_query
  missed-ran e = ap (λ o. insert_bucket o true name uid (count_query o c)) e

  missed-hash :
      (q : ℕ)
      → (insert_new
          (new_pkg_entry name uid)
          (pkg_hash_of name)
          (record c { query_count = q })).pkg_hash
        ≡ with_fresh
  missed-hash q =
      rw fresh-eq (insert_new-grown fresh (pkg_hash_of name) (record c { query_count = q }))

  -- On a sound cache, with memory, for a name of at most 254 bytes, `insert_cache_pkg` returns 0;
  -- the cache then holds an entry for the name: the one that it held before, or one with the given
  -- user id. What it holds for another name is as before, or is no longer held; the cache stays
  -- sound, so no bucket has more than eight entries.
  pub insert_cache_pkg-Inserts :
      Inserts c name uid (insert_cache_pkg true name uid c).0 (insert_cache_pkg true name uid c).1
  unfolding insert_cache_pkg insert_bucket count_query
  insert_cache_pkg-Inserts = by_entry (entry_of c name) refl
    where
      by_entry :
          (o : Option PkgCacheEntry)
          → entry_of c name ≡ o
          → Inserts c name uid
              (insert_cache_pkg true name uid c).0
              (insert_cache_pkg true name uid c).1
      by_entry none e =
          subst (λ r. Inserts c name uid r.0 r.1) (sym (missed-ran e))
            (missed-Inserts missed e (missed-hash (c.query_count + 1)))
      by_entry (some d) e = rw e (
        refl,
        (hit-IsBucket c.pkg_hash name d sound e).0 name ∙ e,
        λ other. inr (inl ((hit-IsBucket c.pkg_hash name d sound e).0 other)),
        (hit-IsBucket c.pkg_hash name d sound e).1,
      )
