-- ===== src/PkgCache/Destroy.antt =====
-- `destroy_pkg_cache`: the loop over all buckets.
use hcfs.Base.{
  ℕ, ◌+◌, ◌≤◌, zero, suc, ◌≡◌, refl, false, [], ◌==◌, ltb, leb, ◌&&◌, if◌then◌else◌, length, arith,
  ap, ◌∙◌, subst, sym,
}
use hcfs.Base.Int.{pos, ◌-ℤ◌}
use hcfs.Base.Tables.{update}
use hcfs.PkgCache.{
  PkgCache, PkgEntryHead, destroy_bucket, destroy_from, destroy_pkg_cache, pkg_hash_size,
}
use hcfs.PkgCache.Laws.{IsBucket, IsCache, stored-IsCache}

abbrev pub no_entries : PkgEntryHead
no_entries = record { first_pkg_entry = []; num_pkgs = pos 0 }

-- The number of entries in `left` buckets from `hash_idx` on.
abbrev pub total : (left hash_idx : ℕ) → (ℕ → PkgEntryHead) → ℕ
total zero hash_idx f = 0
total (suc left) hash_idx f = length (f hash_idx).first_pkg_entry + total left (hash_idx + 1) f

take_away : (a b : ℕ) → pos (a + b) -ℤ pos a ≡ pos b
unfolding ◌-ℤ◌
take_away a b = ground arith

take_all : (a : ℕ) → pos a -ℤ pos a ≡ pos 0
unfolding ◌-ℤ◌
take_all a = ground arith

total-update :
    (left hash_idx k : ℕ) (f : ℕ → PkgEntryHead) (h : PkgEntryHead)
    → k + 1 ≤ hash_idx
    → total left hash_idx (update f k h) ≡ total left hash_idx f
total-update zero hash_idx k f h e = refl
total-update (suc left) hash_idx k f h e =
    rw (apart, total-update left (hash_idx + 1) k f h (omega (arith, e)))
  where
    apart : (k == hash_idx) ≡ false
    apart = ground (arith, e)

destroy_bucket-no_entries :
    (i : ℕ) (c : PkgCache)
    → IsBucket (c.pkg_hash i)
    → (destroy_bucket i c).pkg_hash ≡ update c.pkg_hash i no_entries
destroy_bucket-no_entries i c b =
    ap (λ n. update c.pkg_hash i (record { first_pkg_entry = []; num_pkgs = n }))
      (ap (λ n. n -ℤ pos (length (c.pkg_hash i).first_pkg_entry)) b.counted
        ∙ take_all (length (c.pkg_hash i).first_pkg_entry))

-- The buckets of `c` from `hash_idx` on, `left` of them, are empty in `d`, which counts no entry.
abbrev pub IsEmptied : (left hash_idx : ℕ) → PkgCache → PkgCache → Type 0
IsEmptied left hash_idx c d =
    ((i : ℕ)
      → d.pkg_hash i
        ≡ (if leb hash_idx i && ltb i (hash_idx + left) then no_entries else c.pkg_hash i))
    × (d.num_cache_pkgs ≡ pos 0)

destroy_from-step :
    (left hash_idx : ℕ) (c d : PkgCache)
    → IsBucket (c.pkg_hash hash_idx)
    → IsEmptied left (hash_idx + 1) (destroy_bucket hash_idx c) d
    → IsEmptied (suc left) hash_idx c d
destroy_from-step left hash_idx c d b rest = (
  λ i.
      let there : (destroy_bucket hash_idx c).pkg_hash i ≡ update c.pkg_hash hash_idx no_entries i =
        ap (λ f. f i) (destroy_bucket-no_entries hash_idx c b) in
      ground (arith, rest.0 i, there),
  rest.1,
)

destroy_bucket-count :
    (left hash_idx : ℕ) (c : PkgCache)
    → IsBucket (c.pkg_hash hash_idx)
    → c.num_cache_pkgs ≡ pos (total (suc left) hash_idx c.pkg_hash)
    → (destroy_bucket hash_idx c).num_cache_pkgs
      ≡ pos (total left (hash_idx + 1) (destroy_bucket hash_idx c).pkg_hash)
destroy_bucket-count left hash_idx c b e =
    ap (λ n. n -ℤ pos (length (c.pkg_hash hash_idx).first_pkg_entry)) e
    ∙ take_away (length (c.pkg_hash hash_idx).first_pkg_entry)
        (total left (hash_idx + 1) c.pkg_hash)
    ∙ ap pos (sym (total-update left (hash_idx + 1) hash_idx c.pkg_hash _ (omega arith)))

destroy_bucket-IsCache :
    (hash_idx : ℕ) (c : PkgCache) → IsCache c → IsCache (destroy_bucket hash_idx c)
destroy_bucket-IsCache hash_idx c sound i =
    subst (λ f. IsBucket (f i)) (sym (destroy_bucket-no_entries hash_idx c (sound hash_idx)))
      (stored-IsCache c.pkg_hash hash_idx no_entries sound
        (record { apart = tt; counted = refl; bounded = omega arith }) i)

destroy_from-IsEmptied :
    (left hash_idx : ℕ) (c : PkgCache)
    → IsCache c
    → c.num_cache_pkgs ≡ pos (total left hash_idx c.pkg_hash)
    → IsEmptied left hash_idx c (destroy_from left hash_idx c)
unfolding destroy_from
destroy_from-IsEmptied zero hash_idx c sound e = (λ i. ground arith, e)
destroy_from-IsEmptied (suc left) hash_idx c sound e =
    destroy_from-step left hash_idx c (destroy_from left (hash_idx + 1) (destroy_bucket hash_idx c))
      (sound hash_idx)
      (destroy_from-IsEmptied left (hash_idx + 1) (destroy_bucket hash_idx c)
        (destroy_bucket-IsCache hash_idx c sound)
        (destroy_bucket-count left hash_idx c (sound hash_idx) e))

-- On a sound cache that counts the entries of its eight buckets, `destroy_pkg_cache` empties all
-- eight buckets, and both the buckets and the cache count no entry then.
pub destroy_pkg_cache-IsEmptied :
    (c : PkgCache)
    → IsCache c
    → c.num_cache_pkgs ≡ pos (total pkg_hash_size 0 c.pkg_hash)
    → IsEmptied pkg_hash_size 0 c (destroy_pkg_cache c)
unfolding destroy_pkg_cache
destroy_pkg_cache-IsEmptied c sound e = destroy_from-IsEmptied pkg_hash_size 0 c sound e
