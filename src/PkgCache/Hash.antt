-- ===== src/PkgCache/Hash.antt =====
-- The loop over chunks of eight bytes in `djb_hash` does what a loop over single bytes does.
use hcfs.Base.{ℕ, ◌≡◌, refl, [], ◌∷◌}
use hcfs.PkgCache.{Name, hash_tail, hash_chunks, djb_hash}

hash_chunks-tail : (cs : Name) (hash : ℕ) → hash_chunks hash cs ≡ hash_tail hash cs
unfolding hash_chunks hash_tail
hash_chunks-tail [] hash = refl
hash_chunks-tail (a ∷ []) hash = refl
hash_chunks-tail (a ∷ b ∷ []) hash = refl
hash_chunks-tail (a ∷ b ∷ c ∷ []) hash = refl
hash_chunks-tail (a ∷ b ∷ c ∷ d ∷ []) hash = refl
hash_chunks-tail (a ∷ b ∷ c ∷ d ∷ e ∷ []) hash = refl
hash_chunks-tail (a ∷ b ∷ c ∷ d ∷ e ∷ f ∷ []) hash = refl
hash_chunks-tail (a ∷ b ∷ c ∷ d ∷ e ∷ f ∷ g ∷ []) hash = refl
hash_chunks-tail (a ∷ b ∷ c ∷ d ∷ e ∷ f ∷ g ∷ h ∷ cs) hash = hash_chunks-tail cs _

-- `djb_hash` of any string, which takes eight bytes at a time as long as it can, is the hash that a
-- loop over the single bytes computes from 5381.
pub djb_hash-bytes : (key : Name) → djb_hash key ≡ hash_tail 5381 key
unfolding djb_hash
djb_hash-bytes key = hash_chunks-tail key 5381
