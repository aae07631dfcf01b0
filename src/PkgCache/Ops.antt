-- ===== src/PkgCache/Ops.antt =====
-- The operations on the package cache as changes of a map.
use hcfs.Base.{
  ℕ, ◌≡◌, refl, Option, none, some, Result, ok, err, enoent, if◌then◌else◌, length, arith,
  Bool-cases, inl, inr, ◌∙◌, sym, ap,
}
use hcfs.Base.Int.{pos, ◌-ℤ◌, pos_sub_one}
use hcfs.PkgCache.{
  Name, PkgCache, PkgCacheEntry, PkgEntryHead, name_eq, find_entry, remove_entry, pkg_hash_of,
  count_query, lookup_cache_pkg, remove_cache_pkg,
}
use hcfs.PkgCache.Entries.{eq_of_name_eq, find-remove, remove-AreApart, length-remove}
use hcfs.PkgCache.Laws.{
  entry_of, IsBucket, IsCache, stored-find, stored-IsCache, same_hash, hit-IsBucket,
}

-- The result of a lookup.
abbrev pub uid_or_enoent : Option PkgCacheEntry → Result ℕ
uid_or_enoent none = err enoent
uid_or_enoent (some e) = ok e.pkguid

module _ (name : Name) (c : PkgCache) (sound : IsCache c) where
  -- On a sound cache, `lookup_cache_pkg` returns the user id that the cache holds for the name, or
  -- ENOENT where it holds none; the cache holds the same entries afterwards, for every name, and
  -- stays sound.
  pub lookup_cache_pkg-entry_of :
      ((lookup_cache_pkg name c).0 ≡ uid_or_enoent (entry_of c name))
      × ((other : Name) → entry_of (lookup_cache_pkg name c).1 other ≡ entry_of c other)
      × IsCache (lookup_cache_pkg name c).1
  unfolding lookup_cache_pkg count_query
  lookup_cache_pkg-entry_of = by_entry (entry_of c name) refl
    where
      by_entry :
          (o : Option PkgCacheEntry)
          → entry_of c name ≡ o
          → ((lookup_cache_pkg name c).0 ≡ uid_or_enoent (entry_of c name))
            × ((other : Name) → entry_of (lookup_cache_pkg name c).1 other ≡ entry_of c other)
            × IsCache (lookup_cache_pkg name c).1
      by_entry none e = rw e (refl, λ other. refl, sound)
      by_entry (some d) e = rw e (
        refl,
        (hit-IsBucket c.pkg_hash name d sound e).0,
        (hit-IsBucket c.pkg_hash name d sound e).1,
      )

abbrev pub ok_or_enoent : Option PkgCacheEntry → Result (Unit {0})
ok_or_enoent none = err enoent
ok_or_enoent (some e) = ok tt

abbrev shrunk : Name → PkgEntryHead → PkgEntryHead
shrunk name h = record {
  first_pkg_entry = remove_entry name h.first_pkg_entry;
  num_pkgs = h.num_pkgs -ℤ pos 1;
}

shrunk-IsBucket :
    (name : Name) (h : PkgEntryHead) (e : PkgCacheEntry)
    → IsBucket h
    → find_entry name h.first_pkg_entry ≡ some e
    → IsBucket (shrunk name h)
shrunk-IsBucket name h e b f = record {
  apart = remove-AreApart name h.first_pkg_entry b.apart;
  counted =
      ap (λ n. n -ℤ pos 1) b.counted
      ∙ pos_sub_one (length h.first_pkg_entry) _ (sym (length-remove name e h.first_pkg_entry f));
  bounded = omega (arith, length-remove name e h.first_pkg_entry f, b.bounded);
}

-- After the removal of `name`.
abbrev pub Removes : PkgCache → Name → Result (Unit {0}) → PkgCache → Type 0
Removes c name r c' =
    (r ≡ ok_or_enoent (entry_of c name))
    × ((other : Name) → entry_of c' other ≡ (if name_eq name other then none else entry_of c other))
    × IsCache c'

module _ (name : Name) (c : PkgCache) (sound : IsCache c) where
  nothing-gone :
      (other : Name)
      → entry_of c name ≡ none
      → entry_of c other ≡ (if name_eq name other then none else entry_of c other)
  nothing-gone other e = elim (Bool-cases (name_eq name other)) [
    | inl s ↦ rw s (sym (ap (λ n. entry_of c n) (eq_of_name_eq name other s)) ∙ e)
    | inr d ↦ rw d
  ]

  -- On a sound cache, `remove_cache_pkg` returns 0 where the cache held the name and ENOENT where it
  -- did not; afterwards it does not hold the name, holds what it held for every other name, and is
  -- sound.
  pub remove_cache_pkg-Removes :
      Removes c name (remove_cache_pkg name c).0 (remove_cache_pkg name c).1
  unfolding remove_cache_pkg count_query
  remove_cache_pkg-Removes = by_entry (entry_of c name) refl
    where
      by_entry :
          (o : Option PkgCacheEntry)
          → entry_of c name ≡ o
          → Removes c name (remove_cache_pkg name c).0 (remove_cache_pkg name c).1
      by_entry none e = rw e (refl, λ other. nothing-gone other e, sound)
      by_entry (some d) e = rw e (
        refl,
        λ other.
            stored-find c.pkg_hash (pkg_hash_of name) (pkg_hash_of other) name other _ none
              (same_hash name other) (find-remove name other _ (sound (pkg_hash_of name)).apart),
        stored-IsCache c.pkg_hash (pkg_hash_of name) _ sound
            (shrunk-IsBucket name (c.pkg_hash (pkg_hash_of name)) d (sound (pkg_hash_of name)) e),
      )
