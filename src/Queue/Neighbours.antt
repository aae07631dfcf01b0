-- ===== src/Queue/Neighbours.antt =====
-- The neighbours of an entry of a queue know it.
use hcfs.Base.{
  ℕ, ◌≡◌, refl, true, false, List, [], ◌∷◌, ◌==◌, has, ◌⊎◌, inl, inr, Bool-cases, ==_iff, sym, ◌∙◌,
  subst, has_here, has_there, has_tail, ne_of_has, ne_sym, ◌≢◌, arith,
}
use hcfs.Queue.{Links, Chain, IsQueue, head_or_zero, last_or}
use hcfs.Queue.Chain.{Chain-first, Chain-ne_zero}

zero_ne : (y : ℕ) → y ≢ 0 → (y == 0) ≡ false
zero_ne y nz = ground arith

module _ (l : ℕ → Links) where
  -- The entry before `i` leads to it, unless `i` is the first one.
  Chain-back :
      (p i : ℕ) (xs : List ℕ)
      → Chain l p xs
      → has i xs ≡ true
      → (((l i).prev ≡ p) × (head_or_zero xs ≡ i))
        ⊎ ((has (l i).prev xs ≡ true) × ((l (l i).prev).next ≡ i))
  Chain-back p i [] c h = cc
  Chain-back p i (y ∷ ys) c h = elim (Bool-cases (y == i)) [
    | inl e ↦
        let y_eq : y ≡ i = (==_iff y i).0 e in inl (rw y_eq at (Chain-first l p y ys c).0, y_eq)
    | inr e ↦ elim (Chain-back y i ys c.3 (has_tail i y ys h e)) [
      | inl (back, first) ↦
          inr (has_here (l i).prev y ys (sym back), rw back ((Chain-first l p y ys c).1 ∙ first))
      | inr (inside, on) ↦ inr (has_there (l i).prev y ys inside, on)
    ]
  ]

  -- The entry after `i` leads back to it, unless `i` is the last one.
  Chain-on :
      (p i : ℕ) (xs : List ℕ)
      → Chain l p xs
      → has i xs ≡ true
      → (((l i).next ≡ 0) × (last_or p xs ≡ i))
        ⊎ ((has (l i).next xs ≡ true) × ((l (l i).next).prev ≡ i))
  Chain-on p i [] c h = cc
  Chain-on p i (y ∷ ys) c h = elim (Bool-cases (y == i)) [
    | inl e ↦
        let y_eq : y ≡ i = (==_iff y i).0 e in
        at_head ys c.3 y_eq (rw y_eq at (Chain-first l p y ys c).1)
    | inr e ↦ elim (Chain-on y i ys c.3 (has_tail i y ys h e)) [
      | inl last ↦ inl last
      | inr (inside, back) ↦ inr (has_there (l i).next y ys inside, back)
    ]
  ]
    where
      at_head :
          (zs : List ℕ)
          → Chain l y zs
          → y ≡ i
          → (l i).next ≡ head_or_zero zs
          → (((l i).next ≡ 0) × (last_or y zs ≡ i))
            ⊎ ((has (l i).next (y ∷ zs) ≡ true) × ((l (l i).next).prev ≡ i))
      at_head [] d y_eq on = inl (on, y_eq)
      at_head (z ∷ zs) d y_eq on = inr (
        has_there (l i).next y (z ∷ zs) (has_here (l i).next z zs (sym on)),
        rw on ((Chain-first l y z zs d).0 ∙ y_eq),
      )

  -- The neighbours of an entry are other entries, and not one another.
  Chain-apart :
      (p i : ℕ) (xs : List ℕ)
      → Chain l p xs
      → has p xs ≡ false
      → has i xs ≡ true
      → ((i == (l i).prev) ≡ false)
        × ((i == (l i).next) ≡ false)
        × (((l i).next ≡ 0) ⊎ (((l i).prev == (l i).next) ≡ false))
  Chain-apart p i [] c out h = cc
  Chain-apart p i (y ∷ ys) c out h = elim (Bool-cases (y == i)) [
    | inl e ↦
        let y_eq : y ≡ i = (==_iff y i).0 e in
        let back : (l i).prev ≡ p = rw y_eq at (Chain-first l p y ys c).0 in
        let on : (l i).next ≡ head_or_zero ys = rw y_eq at (Chain-first l p y ys c).1 in
        (
          rw back (ne_sym p i (ne_of_has i p (y ∷ ys) h out)),
          at_head_next ys y_eq on c.0 c.1,
          at_head_prev ys back on out,
        )
    | inr e ↦ Chain-apart y i ys c.3 c.1 (has_tail i y ys h e)
  ]
    where
      at_head_next :
          (zs : List ℕ)
          → y ≡ i
          → (l i).next ≡ head_or_zero zs
          → y ≢ 0
          → has y zs ≡ false
          → (i == (l i).next) ≡ false
      at_head_next [] y_eq on nz d = rw (on, ← y_eq) (zero_ne y nz)
      at_head_next (z ∷ zs) y_eq on nz d =
          rw (on, ← y_eq) (ne_of_has z y (z ∷ zs) (has_here z z zs refl) d)

      at_head_prev :
          (zs : List ℕ)
          → (l i).prev ≡ p
          → (l i).next ≡ head_or_zero zs
          → has p (y ∷ zs) ≡ false
          → ((l i).next ≡ 0) ⊎ (((l i).prev == (l i).next) ≡ false)
      at_head_prev [] back on d = inl on
      at_head_prev (z ∷ zs) back on d = inr (
          rw (back, on)
            (ne_of_has z p (y ∷ z ∷ zs) (has_there z y (z ∷ zs) (has_here z z zs refl)) d))

  module _ (first last : ℕ) (xs : List ℕ) (q : IsQueue l first last xs) (i : ℕ) where
    pub IsQueue-nonzero : has i xs ≡ true → (i == 0) ≡ false
    IsQueue-nonzero h = ne_sym 0 i (ne_of_has i 0 xs h (Chain-ne_zero l 0 xs q.chain))

    pub IsQueue-apart :
        (l i).member ≡ true
        → ((i == (l i).prev) ≡ false)
          × ((i == (l i).next) ≡ false)
          × (((l i).next ≡ 0) ⊎ (((l i).prev == (l i).next) ≡ false))
    IsQueue-apart h = Chain-apart 0 i xs q.chain (Chain-ne_zero l 0 xs q.chain) (q.complete i h)

    pub IsQueue-back :
        (l i).member ≡ true
        → (((l i).prev ≡ 0) × (first ≡ i))
          ⊎ ((has (l i).prev xs ≡ true) × ((l (l i).prev).next ≡ i))
    IsQueue-back h = elim (Chain-back 0 i xs q.chain (q.complete i h)) [
      | inl (back, head) ↦ inl (back, q.first_eq ∙ head)
      | inr inside ↦ inr inside
    ]

    pub IsQueue-on :
        (l i).member ≡ true
        → (((l i).next ≡ 0) × (last ≡ i)) ⊎ ((has (l i).next xs ≡ true) × ((l (l i).next).prev ≡ i))
    IsQueue-on h = elim (Chain-on 0 i xs q.chain (q.complete i h)) [
      | inl (on, tail) ↦ inl (on, q.last_eq ∙ tail)
      | inr inside ↦ inr inside
    ]

  last-has : (x : ℕ) (xs : List ℕ) → has (last_or x xs) (x ∷ xs) ≡ true
  last-has x [] = has_here x x [] refl
  last-has x (y ∷ ys) = has_there (last_or y ys) x (y ∷ ys) (last-has y ys)

  last-next : (p x : ℕ) (xs : List ℕ) → Chain l p (x ∷ xs) → (l (last_or x xs)).next ≡ 0
  last-next p x [] c = (Chain-first l p x [] c).1
  last-next p x (y ∷ ys) c = last-next x y ys c.3

  -- A queue is empty, or has a last entry with no successor.
  pub IsQueue-cases :
      (first last : ℕ) (xs : List ℕ)
      → IsQueue l first last xs
      → ((xs ≡ []) × (first ≡ 0) × (last ≡ 0))
        ⊎ (((first == 0) ≡ false) × (has last xs ≡ true) × ((l last).next ≡ 0))
  IsQueue-cases first last [] q = inl (refl, q.first_eq, q.last_eq)
  IsQueue-cases first last (x ∷ xs) q = inr (
    rw q.first_eq (IsQueue-nonzero first last (x ∷ xs) q x (has_here x x xs refl)),
    subst (λ k. has k (x ∷ xs) ≡ true) (sym q.last_eq) (last-has x xs),
    rw q.last_eq (last-next 0 x xs q.chain),
  )
