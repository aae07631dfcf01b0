-- ===== src/Queue/Erase.antt =====
-- Taking an entry out of a chain: its neighbours are linked to each other.
use hcfs.Base.{
  ℕ, ◌≡◌, refl, ◌≢◌, true, false, List, [], ◌∷◌, ◌==◌, if◌then◌else◌, has, erase, arith, has-erase,
  ◌⊎◌, inl, inr, Bool-cases, ==_iff, sym, ◌∙◌, has_here, has_there, has_tail, has_not_tail,
  ne_of_has, ne_sym,
}
use hcfs.Queue.{Links, Chain, head_or_zero, last_or, relink}
use hcfs.Queue.Chain.{Chain-frame, Chain-first, Chain-prev, Chain-next, Chain-ne_zero}

next_apart :
    (l : ℕ → Links) (x y : ℕ) (ys : List ℕ)
    → ((l x).next ≡ 0) ⊎ (has (l x).next ys ≡ true)
    → y ≢ 0
    → has y ys ≡ false
    → (y == (l x).next) ≡ false
next_apart l x y ys (inl z) nz out = ground arith
next_apart l x y ys (inr h) nz out = ne_of_has (l x).next y ys h out

relink_other :
    (l : ℕ → Links) (pv nx i : ℕ) → (i == pv) ≡ false → (i == nx) ≡ false → relink l pv nx i ≡ l i
relink_other l pv nx i h k = rw (h, k)

module _ (l m : ℕ → Links) where
  -- Removal: the neighbours of `x` are linked to each other.
  Chain-erase_first :
      (p x : ℕ) (xs : List ℕ)
      → Chain l p (x ∷ xs)
      → has p xs ≡ false
      → ((i : ℕ) → has i xs ≡ true → m i ≡ relink l p (head_or_zero xs) i)
      → Chain m p xs
  Chain-erase_first p x [] c hp at = tt
  Chain-erase_first p x (z ∷ zs) c hp at = (
    c.3.0,
    c.3.1,
    ground (arith, at z),
    Chain-frame l m z zs c.3.3 (λ i h.
        at i (has_there i z zs h)
        ∙ relink_other l p z i (ne_sym p i (ne_of_has i p (z ∷ zs) (has_there i z zs h) hp))
            (ne_sym z i (ne_of_has i z zs h c.3.1))),
  )

  first_after_erase :
      (p x y : ℕ) (ys : List ℕ)
      → Chain l p (y ∷ ys)
      → has x ys ≡ true
      → (y == (l x).next) ≡ false
      → relink l (l x).prev (l x).next y
        ≡ record { member = true; prev = p; next = head_or_zero (erase x ys) }
  first_after_erase p x y [] c h n = cc
  first_after_erase p x y (z ∷ zs) c h n = elim (Bool-cases (z == x)) [
    | inl e ↦
        let z_eq : z ≡ x = (==_iff z x).0 e in
        let back : (l x).prev ≡ y = rw z_eq at (Chain-first l y z zs c.3).0 in
        let on : (l x).next ≡ head_or_zero zs = rw z_eq at (Chain-first l y z zs c.3).1 in
        rw (e, n, c.2, (==_iff y (l x).prev).1 (sym back), on)
    | inr e ↦
        let apart : (y == (l x).prev) ≡ false =
          ne_of_has (l x).prev y (z ∷ zs) (Chain-prev l y x (z ∷ zs) c.3 h e) c.1 in
        rw (e, n, apart, c.2)
  ]

  pub Chain-erase :
      (p x : ℕ) (xs : List ℕ)
      → Chain l p xs
      → has x xs ≡ true
      → has p xs ≡ false
      → ((i : ℕ) → has i (erase x xs) ≡ true → m i ≡ relink l (l x).prev (l x).next i)
      → Chain m p (erase x xs)
  Chain-erase p x [] c h hp at = tt
  Chain-erase p x (y ∷ ys) c h hp at = elim (Bool-cases (y == x)) [
    | inl e ↦
        let y_eq : y ≡ x = (==_iff y x).0 e in
        let back : (l x).prev ≡ p = rw y_eq at (Chain-first l p y ys c).0 in
        let on : (l x).next ≡ head_or_zero ys = rw y_eq at (Chain-first l p y ys c).1 in
        rw e (
          Chain-erase_first p y ys c (has_not_tail p y ys hp)
            λ i k. rw (← back, ← on) (at i (rw e k)))
    | inr e ↦ rw e (
      c.0,
      has-erase x y ys c.1,
      at y (rw e (has_here y y (erase x ys) refl))
          ∙ first_after_erase p x y ys c (has_tail x y ys h e)
              (next_apart l x y ys (Chain-next l y x ys c.3 (has_tail x y ys h e)) c.0 c.1),
      Chain-erase y x ys c.3 (has_tail x y ys h e) c.1
          λ i k. at i (rw e (has_there i y (erase x ys) k)),
    )
  ]

module _ (l : ℕ → Links) where
  pub head-erase :
      (x : ℕ) (xs : List ℕ)
      → Chain l 0 xs
      → has x xs ≡ true
      → head_or_zero (erase x xs) ≡ (if (l x).prev == 0 then (l x).next else head_or_zero xs)
  head-erase x [] c h = cc
  head-erase x (y ∷ ys) c h = elim (Bool-cases (y == x)) [
    | inl e ↦
        let y_eq : y ≡ x = (==_iff y x).0 e in
        let back : (l x).prev ≡ 0 = rw y_eq at (Chain-first l 0 y ys c).0 in
        let on : (l x).next ≡ head_or_zero ys = rw y_eq at (Chain-first l 0 y ys c).1 in
        rw (e, back, on)
    | inr e ↦
        let apart : ((l x).prev == 0) ≡ false = ne_sym 0 (l x).prev (
          ne_of_has (l x).prev 0 (y ∷ ys) (Chain-prev l 0 x (y ∷ ys) c h e)
            (Chain-ne_zero l 0 (y ∷ ys) c)) in
        rw (e, apart)
  ]

  pub last-erase :
      (p x : ℕ) (xs : List ℕ)
      → Chain l p xs
      → has x xs ≡ true
      → last_or p (erase x xs) ≡ (if (l x).next == 0 then (l x).prev else last_or p xs)
  last-erase p x [] c h = cc
  last-erase p x (y ∷ ys) c h = elim (Bool-cases (y == x)) [
    | inl e ↦
        let y_eq : y ≡ x = (==_iff y x).0 e in
        let back : (l x).prev ≡ p = rw y_eq at (Chain-first l p y ys c).0 in
        let on : (l x).next ≡ head_or_zero ys = rw y_eq at (Chain-first l p y ys c).1 in
        rw (e, back, on) (last_first p y ys c.3)
    | inr e ↦ rw e (last-erase y x ys c.3 (has_tail x y ys h e))
  ]
    where
      last_first :
          (p y : ℕ) (ys : List ℕ)
          → Chain l y ys
          → last_or p ys ≡ (if head_or_zero ys == 0 then p else last_or y ys)
      last_first p y [] c = refl
      last_first p y (z ∷ zs) c = ground (arith, c.0)

  pub Chain-erase_self : (p x : ℕ) (xs : List ℕ) → Chain l p xs → has x (erase x xs) ≡ false
  Chain-erase_self p x [] c = refl
  Chain-erase_self p x (y ∷ ys) c = elim (Bool-cases (y == x)) [
    | inl e ↦ let y_eq : y ≡ x = (==_iff y x).0 e in rw e (rw y_eq at c.1)
    | inr e ↦ rw (e, e) (Chain-erase_self y x ys c.3)
  ]
