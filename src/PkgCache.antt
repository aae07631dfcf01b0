-- ===== src/PkgCache.antt =====
-- The cache of the user ids of packages (src/HCFS/pkg_cache.c, pkg_cache.h): a hash table of lists
-- in the order of use, and `djb_hash` of src/HCFS/utils.h.
pub mod Entries
pub mod Laws
pub mod Ops
pub mod Insert
pub mod Destroy
mod Tests
pub mod Hash
use Prim.Native.Nat.{bit_and, bit_xor}
use hcfs.Base.{
  ℕ, ◌+◌, ◌*◌, ◌%◌, suc, zero, Bool, true, false, ◌&&◌, List, [], ◌∷◌, Option, none, some, Errno,
  enoent, enomem, Result, ok, err, ◌==◌, if◌then◌else◌, length,
}
use hcfs.Base.Int.{ℤ, pos, ◌+ℤ◌, ◌-ℤ◌, is_zero_ℤ}
use hcfs.Base.Tables.{update}

-- The bytes of a string before its final 0.
abbrev pub Name : Type 0
Name = List ℕ

abbrev pub max_pkg_entries : ℕ
max_pkg_entries = 8

abbrev pub pkg_hash_size : ℕ
pkg_hash_size = 8

abbrev pub max_filename_len : ℕ
max_filename_len = 255

-- `!strcmp(a, b)`
abbrev pub name_eq : Name → Name → Bool
name_eq [] [] = true
name_eq (x ∷ xs) (y ∷ ys) = (x == y) && name_eq xs ys
name_eq _ _ = false

abbrev pub hash_step : ℕ → ℕ → ℕ
hash_step hash c = bit_xor ((hash * 33) % 4294967296) c

-- The loop over what is left, and the loop over chunks of eight bytes before it.
unfoldable pub hash_tail : ℕ → Name → ℕ
hash_tail hash [] = hash
hash_tail hash (c ∷ cs) = hash_tail (hash_step hash c) cs

abbrev hash_8 : ℕ → (p0 p1 p2 p3 p4 p5 p6 p7 : ℕ) → ℕ
hash_8 hash p0 p1 p2 p3 p4 p5 p6 p7 =
    let h1 = hash_step (hash_step hash p0) p1 in
    let h3 = hash_step (hash_step h1 p2) p3 in
    let h5 = hash_step (hash_step h3 p4) p5 in hash_step (hash_step h5 p6) p7

unfoldable pub hash_chunks : ℕ → Name → ℕ
unfolding hash_tail
hash_chunks hash (p0 ∷ p1 ∷ p2 ∷ p3 ∷ p4 ∷ p5 ∷ p6 ∷ p7 ∷ cs) =
    hash_chunks (hash_8 hash p0 p1 p2 p3 p4 p5 p6 p7) cs
hash_chunks hash cs = hash_tail hash cs

unfoldable pub djb_hash : Name → ℕ
unfolding hash_chunks
djb_hash key = hash_chunks 5381 key

unfoldable pub pkg_hash_of : Name → ℕ
unfolding djb_hash
pkg_hash_of input = bit_and (djb_hash input) 7

pub record PkgCacheEntry : Type 0 where
  pub pkgname : Name
  pub pkguid : ℕ

pub record PkgEntryHead : Type 0 where
  pub first_pkg_entry : List PkgCacheEntry
  pub num_pkgs : ℤ

-- The lock is held through each operation, which runs as one step.
pub record PkgCache : Type 0 where
  pub pkg_hash : ℕ → PkgEntryHead
  pub num_cache_pkgs : ℤ
  pub hit_count : ℕ
  pub query_count : ℕ

abbrev pub find_entry : Name → List PkgCacheEntry → Option PkgCacheEntry
find_entry name [] = none
find_entry name (e ∷ es) = if name_eq name e.pkgname then some e else find_entry name es

abbrev pub remove_entry : Name → List PkgCacheEntry → List PkgCacheEntry
remove_entry name [] = []
remove_entry name (e ∷ es) = if name_eq name e.pkgname then es else e ∷ remove_entry name es

abbrev pub drop_last : List PkgCacheEntry → List PkgCacheEntry
drop_last [] = []
drop_last (e ∷ []) = []
drop_last (e ∷ d ∷ es) = e ∷ drop_last (d ∷ es)

abbrev pub take_bytes : ℕ → Name → Name
take_bytes zero cs = []
take_bytes (suc n) [] = []
take_bytes (suc n) (c ∷ cs) = c ∷ take_bytes n cs

-- `snprintf` to a buffer of MAX_FILENAME_LEN bytes, the last one being 0.
unfoldable pub new_pkg_entry : Name → ℕ → PkgCacheEntry
new_pkg_entry name uid = record { pkgname = take_bytes 254 name; pkguid = uid }

-- The counts of hits and queries.
unfoldable pub count_query : Option PkgCacheEntry → PkgCache → PkgCache
count_query none c = record c { query_count = c.query_count + 1 }
count_query (some e) c = record c { hit_count = c.hit_count + 1; query_count = c.query_count + 1 }

abbrev pub with_bucket : PkgCache → ℕ → PkgEntryHead → PkgCache
with_bucket c hash h = record c { pkg_hash = update c.pkg_hash hash h }

-- The entry found becomes the first one.
abbrev pub promoted : Name → PkgCacheEntry → PkgEntryHead → PkgEntryHead
promoted name e h = record h { first_pkg_entry = e ∷ remove_entry name h.first_pkg_entry }

abbrev lookup_bucket : Option PkgCacheEntry → Name → PkgCache → Result ℕ × PkgCache
lookup_bucket none name c = (err enoent, c)
lookup_bucket (some e) name c = (
  ok e.pkguid,
  with_bucket c (pkg_hash_of name) (promoted name e (c.pkg_hash (pkg_hash_of name))),
)

unfoldable pub lookup_cache_pkg : Name → PkgCache → Result ℕ × PkgCache
unfolding count_query pkg_hash_of
lookup_cache_pkg name c =
    let found = find_entry name (c.pkg_hash (pkg_hash_of name)).first_pkg_entry in
    lookup_bucket found name (count_query found c)

-- A full bucket loses its last entry; another one grows.
unfoldable pub insert_new : PkgCacheEntry → ℕ → PkgCache → PkgCache
insert_new e hash c =
    let h = c.pkg_hash hash in
    if is_zero_ℤ (h.num_pkgs -ℤ pos max_pkg_entries)
    then with_bucket c hash (record h { first_pkg_entry = e ∷ drop_last h.first_pkg_entry })
    else record c {
      pkg_hash =
          update c.pkg_hash hash
            (record { first_pkg_entry = e ∷ h.first_pkg_entry; num_pkgs = h.num_pkgs +ℤ pos 1 });
      num_cache_pkgs = c.num_cache_pkgs +ℤ pos 1;
    }

-- `has_memory`: `calloc` returns memory.
unfoldable pub insert_bucket :
    Option PkgCacheEntry → (has_memory : Bool) → Name → ℕ → PkgCache → Result (Unit {0}) × PkgCache
unfolding insert_new new_pkg_entry pkg_hash_of
insert_bucket none false name uid c = (err enomem, c)
insert_bucket none true name uid c =
    (ok tt, insert_new (new_pkg_entry name uid) (pkg_hash_of name) c)
insert_bucket (some e) has_memory name uid c =
    (ok tt, with_bucket c (pkg_hash_of name) (promoted name e (c.pkg_hash (pkg_hash_of name))))

unfoldable pub insert_cache_pkg :
    (has_memory : Bool) → Name → ℕ → PkgCache → Result (Unit {0}) × PkgCache
unfolding insert_bucket count_query pkg_hash_of
insert_cache_pkg has_memory name uid c =
    let found = find_entry name (c.pkg_hash (pkg_hash_of name)).first_pkg_entry in
    insert_bucket found has_memory name uid (count_query found c)

abbrev remove_bucket : Option PkgCacheEntry → Name → PkgCache → Result (Unit {0}) × PkgCache
remove_bucket none name c = (err enoent, c)
remove_bucket (some e) name c =
    let h = c.pkg_hash (pkg_hash_of name) in
    (
      ok tt,
      record c {
        pkg_hash = update c.pkg_hash (pkg_hash_of name) (record {
          first_pkg_entry = remove_entry name h.first_pkg_entry;
          num_pkgs = h.num_pkgs -ℤ pos 1;
        });
        num_cache_pkgs = c.num_cache_pkgs -ℤ pos 1;
      },
    )

unfoldable pub remove_cache_pkg : Name → PkgCache → Result (Unit {0}) × PkgCache
unfolding count_query pkg_hash_of
remove_cache_pkg name c =
    let found = find_entry name (c.pkg_hash (pkg_hash_of name)).first_pkg_entry in
    remove_bucket found name (count_query found c)

abbrev pub init_pkg_cache : PkgCache
init_pkg_cache = record {
  pkg_hash = λ i. record { first_pkg_entry = []; num_pkgs = pos 0 };
  num_cache_pkgs = pos 0;
  hit_count = 0;
  query_count = 0;
}

-- One bucket, and `left` buckets from `hash_idx` on.
abbrev pub destroy_bucket : ℕ → PkgCache → PkgCache
destroy_bucket hash_idx c =
    let h = c.pkg_hash hash_idx in
    record c {
      pkg_hash = update c.pkg_hash hash_idx (record {
        first_pkg_entry = [];
        num_pkgs = h.num_pkgs -ℤ pos (length h.first_pkg_entry);
      });
      num_cache_pkgs = c.num_cache_pkgs -ℤ pos (length h.first_pkg_entry);
    }

unfoldable pub destroy_from : (left hash_idx : ℕ) → PkgCache → PkgCache
destroy_from zero hash_idx c = c
destroy_from (suc left) hash_idx c = destroy_from left (hash_idx + 1) (destroy_bucket hash_idx c)

unfoldable pub destroy_pkg_cache : PkgCache → PkgCache
unfolding destroy_from
destroy_pkg_cache c = destroy_from pkg_hash_size 0 c
