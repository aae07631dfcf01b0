-- ===== src/HashList/Find.antt =====
-- One list of the hash table: looking up after a change, and keys that stay apart.
use hcfs.Base.{
  ℕ, suc, ◌+◌, ◌≡◌, refl, Bool, true, false, List, [], ◌∷◌, none, some, if◌then◌else◌, arith,
  Bool-cases, inl, inr, length, ◌∙◌, sym,
}
use hcfs.Base.Int.{ℤ, pos, ◌+ℤ◌, ◌-ℤ◌, int32}
use hcfs.HashList.{ListNode, find_data, remove_hit, change_entry}

-- The keys that hit one another form an equivalence.
pub record IsKeyed {Key : Type 0} (hits : Key → Key → Bool) : Type 0 where
  pub same : (a : Key) → hits a a ≡ true
  pub swapped : (a b : Key) → hits a b ≡ hits b a
  pub chained : (a b c : Key) → hits a b ≡ true → hits a c ≡ hits b c

module _ {Key Data : Type 0} (hits : Key → Key → Bool) where
  -- The keys of a list are different.
  abbrev pub IsApart : List (ListNode Key Data) → Type 0
  IsApart [] = Unit
  IsApart (n ∷ ns) = (find_data hits n.key ns ≡ none) × IsApart ns

module _ {Key : Type 0} (hits : Key → Key → Bool) (keyed : IsKeyed hits) where
  -- Of two keys that one key hits, both or none hit a third.
  both_hit : (k j c : Key) → hits k c ≡ true → hits k j ≡ hits j c
  both_hit k j c h = keyed.chained k c j h ∙ keyed.swapped c j

  miss_of_hit : (k j c : Key) → hits k c ≡ false → hits k j ≡ true → hits j c ≡ false
  miss_of_hit k j c miss h = sym (keyed.chained k j c h) ∙ miss

module _ {Key Data : Type 0} (hits : Key → Key → Bool) (keyed : IsKeyed hits) where
  pub find-hits :
      (a b : Key) (ns : List (ListNode Key Data))
      → hits a b ≡ true
      → find_data hits a ns ≡ find_data hits b ns
  find-hits a b [] h = refl
  find-hits a b (n ∷ ns) h = rw (keyed.chained a b n.key h, find-hits a b ns h)

  pub find-change :
      (k j : Key) (d d' : Data) (ns : List (ListNode Key Data))
      → find_data hits k ns ≡ some d
      → find_data hits j (change_entry hits k d' ns)
        ≡ (if hits k j then some d' else find_data hits j ns)
  find-change k j d d' [] f = cc
  find-change k j d d' (n ∷ ns) f = elim (Bool-cases (hits k n.key)) [
    | inl e ↦ rw (e, both_hit hits keyed k j n.key e) (skip (hits j n.key))
    | inr e ↦
        let rest = find-change k j d d' ns (rw e at f) in
        rw (e, rest)
          (elim (Bool-cases (hits k j)) [
            | inl t ↦ rw (t, miss_of_hit hits keyed k j n.key e t)
            | inr f ↦ rw f
          ])
  ]
    where
      skip :
          (b : Bool)
          → (if b then some d' else find_data hits j ns)
            ≡ (if b then some d' else (if b then some n.data_of else find_data hits j ns))
      skip true = refl
      skip false = refl

  pub find-remove :
      (k j : Key) (ns : List (ListNode Key Data))
      → IsApart hits ns
      → find_data hits j (remove_hit hits k ns) ≡ (if hits k j then none else find_data hits j ns)
  find-remove k j [] l = ground arith
  find-remove k j (n ∷ ns) l = elim (Bool-cases (hits k n.key)) [
    | inl e ↦
        rw (e, both_hit hits keyed k j n.key e)
          (elim (Bool-cases (hits j n.key)) [
            | inl t ↦ rw t (find-hits j n.key ns t ∙ l.0)
            | inr f ↦ rw f
          ])
    | inr e ↦
        rw (e, find-remove k j ns l.1)
          (elim (Bool-cases (hits k j)) [
            | inl t ↦ rw (t, miss_of_hit hits keyed k j n.key e t)
            | inr f ↦ rw f
          ])
  ]

  pub find-here :
      (k j : Key) (d : Data) (ns : List (ListNode Key Data))
      → find_data hits j (record { key = k; data_of = d } ∷ ns)
        ≡ (if hits k j then some d else find_data hits j ns)
  find-here k j d ns = rw (keyed.swapped j k)

  pub change-IsApart :
      (k : Key) (d d' : Data) (ns : List (ListNode Key Data))
      → IsApart hits ns
      → find_data hits k ns ≡ some d
      → IsApart hits (change_entry hits k d' ns)
  change-IsApart k d d' [] l f = tt
  change-IsApart k d d' (n ∷ ns) l f = elim (Bool-cases (hits k n.key)) [
    | inl e ↦ rw e (l.0, l.1)
    | inr e ↦ rw e (
      find-change k n.key d d' ns (rw e at f) ∙ rw e l.0,
      change-IsApart k d d' ns l.1 (rw e at f),
    )
  ]

  pub remove-IsApart :
      (k : Key) (ns : List (ListNode Key Data))
      → IsApart hits ns
      → IsApart hits (remove_hit hits k ns)
  remove-IsApart k [] l = tt
  remove-IsApart k (n ∷ ns) l = elim (Bool-cases (hits k n.key)) [
    | inl e ↦ rw e l.1
    | inr e ↦ rw e (find-remove k n.key ns l.1 ∙ rw e l.0, remove-IsApart k ns l.1)
  ]

  pub length-change_entry :
      (k : Key) (d : Data) (ns : List (ListNode Key Data))
      → length (change_entry hits k d ns) ≡ length ns
  length-change_entry k d [] = refl
  length-change_entry k d (n ∷ ns) = elim (Bool-cases (hits k n.key)) [
    | inl e ↦ rw e
    | inr e ↦ rw (e, length-change_entry k d ns)
  ]

  pub length-remove_hit :
      (k : Key) (d : Data) (ns : List (ListNode Key Data))
      → find_data hits k ns ≡ some d
      → length ns ≡ length (remove_hit hits k ns) + 1
  length-remove_hit k d [] f = cc
  length-remove_hit k d (n ∷ ns) f = elim (Bool-cases (hits k n.key)) [
    | inl e ↦ rw e (omega arith)
    | inr e ↦ rw e (omega (arith, length-remove_hit k d ns (rw e at f)))
  ]

-- A counter of 32 bits that follows the length of a list.
pub counted_up : (z : ℤ) (n : ℕ) → z ≡ int32 (pos n) → int32 (z +ℤ pos 1) ≡ int32 (pos (suc n))
unfolding int32 ◌+ℤ◌
counted_up z n e = rw e (ground arith)

pub counted_down :
    (z : ℤ) (n m : ℕ) → z ≡ int32 (pos n) → n ≡ m + 1 → int32 (z -ℤ pos 1) ≡ int32 (pos m)
unfolding int32 ◌-ℤ◌
counted_down z n m e k = rw e (ground arith)
