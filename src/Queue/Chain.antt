-- ===== src/Queue/Chain.antt =====
-- Facts about one chain, and appending an entry to it.
use hcfs.Base.{
  ℕ, ◌≡◌, refl, ◌≢◌, true, false, List, [], ◌∷◌, ◌++◌, ◌==◌, if◌then◌else◌, has, arith, has-append,
  ◌⊎◌, inl, inr, Bool-cases, ==_iff, sym, has_here, has_there, has_tail,
}
use hcfs.Queue.{Links, Chain, head_or_zero, last_or}

module _ (l : ℕ → Links) where
  pub Chain-ne_zero : (p : ℕ) (xs : List ℕ) → Chain l p xs → has 0 xs ≡ false
  Chain-ne_zero p [] c = refl
  Chain-ne_zero p (x ∷ xs) c = ground (arith, Chain-ne_zero x xs c.3)

  pub Chain-member :
      (p : ℕ) (xs : List ℕ) (i : ℕ) → Chain l p xs → has i xs ≡ true → (l i).member ≡ true
  Chain-member p [] i c h = ground arith
  Chain-member p (x ∷ xs) i c h = ground (arith, Chain-member x xs i c.3)

  -- A chain depends on its own entries alone.
  pub Chain-frame :
      (m : ℕ → Links) (p : ℕ) (xs : List ℕ)
      → Chain l p xs
      → ((i : ℕ) → has i xs ≡ true → m i ≡ l i)
      → Chain m p xs
  Chain-frame m p [] c same = tt
  Chain-frame m p (x ∷ xs) c same =
      (c.0, c.1, ground (arith, same x), Chain-frame m x xs c.3 (λ i h. same i (ground arith)))

  -- The first entry of a chain points back to where the chain starts.
  pub Chain-first :
      (p x : ℕ) (xs : List ℕ)
      → Chain l p (x ∷ xs)
      → ((l x).prev ≡ p) × ((l x).next ≡ head_or_zero xs)
  Chain-first p x xs c = ground arith

  -- A later entry points back into the chain, and on into it or to 0.
  pub Chain-prev :
      (p x : ℕ) (xs : List ℕ)
      → Chain l p xs
      → has x xs ≡ true
      → (head_or_zero xs == x) ≡ false
      → has (l x).prev xs ≡ true
  Chain-prev p x [] c h n = cc
  Chain-prev p x (y ∷ []) c h n = cc (has_tail x y [] h n)
  Chain-prev p x (y ∷ z ∷ zs) c h n = elim (Bool-cases (z == x)) [
    | inl e ↦
        let z_eq : z ≡ x = (==_iff z x).0 e in
        has_here (l x).prev y (z ∷ zs) (sym (rw z_eq at (Chain-first y z zs c.3).0))
    | inr e ↦
        has_there (l x).prev y (z ∷ zs) (Chain-prev y x (z ∷ zs) c.3 (has_tail x y (z ∷ zs) h n) e)
  ]

  pub Chain-next :
      (p x : ℕ) (xs : List ℕ)
      → Chain l p xs
      → has x xs ≡ true
      → ((l x).next ≡ 0) ⊎ (has (l x).next xs ≡ true)
  Chain-next p x [] c h = cc
  Chain-next p x (y ∷ ys) c h = elim (Bool-cases (y == x)) [
    | inl e ↦
        let y_eq : y ≡ x = (==_iff y x).0 e in head_case ys (rw y_eq at (Chain-first p y ys c).1)
    | inr e ↦ elim (Chain-next y x ys c.3 (has_tail x y ys h e)) [
      | inl z ↦ inl z
      | inr m ↦ inr (has_there (l x).next y ys m)
    ]
  ]
    where
      head_case :
          (zs : List ℕ)
          → (l x).next ≡ head_or_zero zs
          → ((l x).next ≡ 0) ⊎ (has (l x).next (y ∷ zs) ≡ true)
      head_case [] e = inl e
      head_case (z ∷ zs) e =
          inr (has_there (l x).next y (z ∷ zs) (has_here (l x).next z zs (sym e)))

has-last : (x : ℕ) (xs : List ℕ) → has (last_or x xs) (x ∷ xs) ≡ true
has-last x [] = ground arith
has-last x (y ∷ ys) = ground (arith, has-last y ys)

module _ (l m : ℕ → Links) where
  -- Appending: the last entry is linked to `x`, and `x` back to it.
  pub Chain-append :
      (p x last : ℕ) (xs : List ℕ)
      → Chain l p xs
      → x ≢ 0
      → has x xs ≡ false
      → last ≡ last_or p xs
      → ((i : ℕ) → has i xs ≡ true → m i ≡ (if i == last then record (l i) { next = x } else l i))
      → m x ≡ record { member = true; prev = last; next = 0 }
      → Chain m p (xs ++ (x ∷ []))
  Chain-append p x last [] c nz out e at at_x = (nz, refl, ground arith, tt)
  Chain-append p x last (y ∷ []) c nz out e at at_x =
      (c.0, ground arith, ground (arith, at y), (nz, refl, ground arith, tt))
  Chain-append p x last (y ∷ z ∷ zs) c nz out e at at_x = (
    c.0,
    ground (arith, has-append y (z ∷ zs) (x ∷ [])),
    ground (arith, at y, has-last z zs),
    Chain-append y x last (z ∷ zs) c.3 nz (ground arith) e (λ i h. at i (has_there i y (z ∷ zs) h))
        at_x,
  )
