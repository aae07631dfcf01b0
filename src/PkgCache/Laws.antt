-- ===== src/PkgCache/Laws.antt =====
-- The package cache as a map from names to user ids, with lists of bounded length.
use hcfs.Base.{
  ℕ, ◌≤◌, suc, ◌≡◌, refl, true, List, ◌∷◌, Option, none, some, ◌==◌, if◌then◌else◌, length, arith,
  Bool-cases, inl, inr, ==_iff, ◌∙◌, sym, ap,
}
use hcfs.Base.Int.{pos}
use hcfs.Base.Tables.{update}
use hcfs.PkgCache.{
  Name, PkgCache, PkgCacheEntry, PkgEntryHead, name_eq, find_entry, remove_entry, max_pkg_entries,
  pkg_hash_of, count_query, promoted,
}
use hcfs.PkgCache.Entries.{
  name_eq_refl, name_eq-swap, eq_of_name_eq, AreApart, find-name, find-remove, remove-AreApart,
  length-remove,
}

-- The entry that the cache holds for a name.
abbrev pub entry_of : PkgCache → Name → Option PkgCacheEntry
entry_of c name = find_entry name (c.pkg_hash (pkg_hash_of name)).first_pkg_entry

-- A bucket counts its entries, at most MAX_PKG_ENTRIES ones with different names.
pub record IsBucket (h : PkgEntryHead) : Type 0 where
  pub apart : AreApart h.first_pkg_entry
  pub counted : h.num_pkgs ≡ pos (length h.first_pkg_entry)
  pub bounded : length h.first_pkg_entry ≤ max_pkg_entries

abbrev pub IsCache : PkgCache → Type 0
IsCache c = (i : ℕ) → IsBucket (c.pkg_hash i)

pub stored-find :
    (f : ℕ → PkgEntryHead) (i k : ℕ) (name other : Name) (h : PkgEntryHead)
    (new : Option PkgCacheEntry)
    → (name_eq name other ≡ true → i ≡ k)
    → find_entry other h.first_pkg_entry
      ≡ (if name_eq name other then new else find_entry other (f i).first_pkg_entry)
    → find_entry other (update f i h k).first_pkg_entry
      ≡ (if name_eq name other then new else find_entry other (f k).first_pkg_entry)
stored-find f i k name other h new same e = elim (Bool-cases (i == k)) [
  | inl eq ↦ let i_eq : i ≡ k = (==_iff i k).0 eq in rw eq (rw i_eq at e)
  | inr ne ↦ elim (Bool-cases (name_eq name other)) [
    | inl eq ↦ cc ((==_iff i k).1 (same eq))
    | inr ne' ↦ rw (ne, ne')
  ]
]

pub stored-IsCache :
    (f : ℕ → PkgEntryHead) (i : ℕ) (h : PkgEntryHead)
    → ((k : ℕ) → IsBucket (f k))
    → IsBucket h
    → (k : ℕ) → IsBucket (update f i h k)
stored-IsCache f i h all own k = elim (Bool-cases (i == k)) [
  | inl eq ↦ rw eq own
  | inr ne ↦ rw ne (all k)
]

pub same_hash : (a b : Name) → name_eq a b ≡ true → pkg_hash_of a ≡ pkg_hash_of b
same_hash a b h = ap pkg_hash_of (eq_of_name_eq a b h)

pub counted-hash :
    (o : Option PkgCacheEntry) (c : PkgCache) → (count_query o c).pkg_hash ≡ c.pkg_hash
unfolding count_query
counted-hash none c = refl
counted-hash (some e) c = refl

-- Promotion keeps what is found.
find-promote :
    (name other : Name) (e : PkgCacheEntry) (es : List PkgCacheEntry)
    → AreApart es
    → find_entry name es ≡ some e
    → find_entry other (e ∷ remove_entry name es)
      ≡ (if name_eq name other then some e else find_entry other es)
find-promote name other e es l f = rw own (elim (Bool-cases (name_eq name other)) [
  | inl s ↦ rw s
  | inr d ↦ rw d (find-remove name other es l ∙ rw d)
])
  where
    own : name_eq other e.pkgname ≡ name_eq name other
    own = ap (λ n. name_eq other n) (sym (find-name name e es f)) ∙ name_eq-swap other name

promoted-IsBucket :
    (name : Name) (e : PkgCacheEntry) (h : PkgEntryHead)
    → IsBucket h
    → find_entry name h.first_pkg_entry ≡ some e
    → IsBucket (promoted name e h)
promoted-IsBucket name e h b f = record {
  apart = (removed_gone, remove-AreApart name h.first_pkg_entry b.apart);
  counted = b.counted ∙ ap pos (sym one_less);
  bounded = omega (arith, one_less, b.bounded);
}
  where
    one_less : suc (length (remove_entry name h.first_pkg_entry)) ≡ length h.first_pkg_entry
    one_less = omega (arith, length-remove name e h.first_pkg_entry f)

    removed_gone : find_entry e.pkgname (remove_entry name h.first_pkg_entry) ≡ none
    removed_gone =
        ap (λ n. find_entry n (remove_entry name h.first_pkg_entry))
          (sym (find-name name e h.first_pkg_entry f))
        ∙ find-remove name name h.first_pkg_entry b.apart
        ∙ rw (name_eq_refl name)

-- A query that hits.
pub hit-IsBucket :
    (f : ℕ → PkgEntryHead) (name : Name) (e : PkgCacheEntry)
    → ((k : ℕ) → IsBucket (f k))
    → find_entry name (f (pkg_hash_of name)).first_pkg_entry ≡ some e
    → ((other : Name)
        → find_entry other
            (update f
              (pkg_hash_of name)
              (promoted name e (f (pkg_hash_of name)))
              (pkg_hash_of other)).first_pkg_entry
          ≡ find_entry other (f (pkg_hash_of other)).first_pkg_entry)
      × ((k : ℕ)
          → IsBucket (update f (pkg_hash_of name) (promoted name e (f (pkg_hash_of name))) k))
hit-IsBucket f name e all found = (
  λ other.
      stored-find f (pkg_hash_of name) (pkg_hash_of other) name other _ (some e)
        (same_hash name other) (find-promote name other e _ (all (pkg_hash_of name)).apart found)
      ∙ unchanged other,
  stored-IsCache f (pkg_hash_of name) _ all
      (promoted-IsBucket name e (f (pkg_hash_of name)) (all (pkg_hash_of name)) found),
)
  where
    unchanged :
        (other : Name)
        → (if name_eq name other
            then some e
            else find_entry other (f (pkg_hash_of other)).first_pkg_entry)
          ≡ find_entry other (f (pkg_hash_of other)).first_pkg_entry
    unchanged other = elim (Bool-cases (name_eq name other)) [
      | inl s ↦ rw s (
          sym found
          ∙ ap (λ n. find_entry n (f (pkg_hash_of n)).first_pkg_entry) (eq_of_name_eq name other s))
      | inr d ↦ rw d
    ]
