-- ===== src/PkgCache/Tests.antt =====
-- A small package cache, and the theorems on the package cache at it.
use hcfs.Base.Int.{pos}
use hcfs.Base.{ℕ, ◌≡◌, refl, true, [], ◌∷◌, arith}
use hcfs.PkgCache.{
  PkgEntryHead, Name, PkgCache, init_pkg_cache, lookup_cache_pkg, insert_cache_pkg,
  remove_cache_pkg, djb_hash, hash_tail,
}
use hcfs.Base.Tables.{update}
use hcfs.PkgCache.Laws.{stored-IsCache, entry_of, IsCache, IsBucket}
use hcfs.PkgCache.{destroy_pkg_cache, pkg_hash_size}
use hcfs.PkgCache.Destroy.{IsEmptied, destroy_pkg_cache-IsEmptied}
use hcfs.PkgCache.Hash.{djb_hash-bytes}
use hcfs.PkgCache.Ops.{uid_or_enoent, lookup_cache_pkg-entry_of, Removes, remove_cache_pkg-Removes}
use hcfs.PkgCache.Insert.{Inserts, insert_cache_pkg-Inserts}

abbrev name : Name
name = b'a' ∷ b'.' ∷ b'b' ∷ []

init-IsCache : IsCache init_pkg_cache
init-IsCache i = record { apart = tt; counted = refl; bounded = omega arith }

abbrev full_head : ℕ → PkgEntryHead
full_head uid = record {
  first_pkg_entry = record { pkgname = name; pkguid = uid } ∷ [];
  num_pkgs = pos 1;
}

full_head-IsBucket : (uid : ℕ) → IsBucket (full_head uid)
full_head-IsBucket uid = record { apart = (refl, tt); counted = refl; bounded = omega arith }

insert_cache_pkg-Inserts_example :
    Inserts init_pkg_cache name 1000
      (insert_cache_pkg true name 1000 init_pkg_cache).0
      (insert_cache_pkg true name 1000 init_pkg_cache).1
insert_cache_pkg-Inserts_example =
    insert_cache_pkg-Inserts name 1000 init_pkg_cache init-IsCache (omega arith)

abbrev one : PkgCache
one = (insert_cache_pkg true name 1000 init_pkg_cache).1

one-IsCache : IsCache one
one-IsCache = (insert_cache_pkg-Inserts name 1000 init_pkg_cache init-IsCache (omega arith)).3

lookup_cache_pkg-entry_of_example :
    ((lookup_cache_pkg name one).0 ≡ uid_or_enoent (entry_of one name))
    × ((other : Name) → entry_of (lookup_cache_pkg name one).1 other ≡ entry_of one other)
    × IsCache (lookup_cache_pkg name one).1
lookup_cache_pkg-entry_of_example = lookup_cache_pkg-entry_of name one one-IsCache

remove_cache_pkg-Removes_example :
    Removes one name (remove_cache_pkg name one).0 (remove_cache_pkg name one).1
remove_cache_pkg-Removes_example = remove_cache_pkg-Removes name one one-IsCache

djb_hash-bytes_example : djb_hash name ≡ hash_tail 5381 name
djb_hash-bytes_example = djb_hash-bytes name

abbrev two_buckets : PkgCache
two_buckets = record init_pkg_cache {
  pkg_hash = update (update init_pkg_cache.pkg_hash 1 (full_head 1000)) 6 (full_head 2000);
  num_cache_pkgs = pos 2;
}

two_buckets-IsCache : IsCache two_buckets
two_buckets-IsCache =
    stored-IsCache _ 6 (full_head 2000)
      (stored-IsCache _ 1 (full_head 1000) init-IsCache (full_head-IsBucket 1000))
      (full_head-IsBucket 2000)

destroy_pkg_cache-IsEmptied_example :
    IsEmptied pkg_hash_size 0 two_buckets (destroy_pkg_cache two_buckets)
destroy_pkg_cache-IsEmptied_example =
    destroy_pkg_cache-IsEmptied two_buckets two_buckets-IsCache refl
