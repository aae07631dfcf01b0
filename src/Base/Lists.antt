-- ===== src/Base/Lists.antt =====
-- Lists over the native numbers: length, membership of a number, and removal of its first copy.
use Prim.Native.Nat.{ℕ, zero, suc, ◌+◌}
use mathlib.Core.Path.{◌≡◌}
use mathlib.Core.Bool.{Bool, true, false, ◌||◌}
use mathlib.Core.List.{List, [], ◌∷◌, ◌++◌}
use native.Mathlib.Omega.{arith}
use hcfs.Base.Tests.{◌==◌, if◌then◌else◌}

module _ {ℓ} {A : Type ℓ} where
  abbrev pub length : List A → ℕ
  length [] = 0
  length (x ∷ xs) = suc (length xs)

  abbrev pub get_or : List A → ℕ → A → A
  get_or [] i d = d
  get_or (x ∷ xs) zero d = x
  get_or (x ∷ xs) (suc i) d = get_or xs i d

  pub length-append : (xs ys : List A) → length (xs ++ ys) ≡ length xs + length ys
  length-append [] ys = omega arith
  length-append (x ∷ xs) ys = omega (arith, length-append xs ys)

abbrev pub has : ℕ → List ℕ → Bool
has a [] = false
has a (x ∷ xs) = (x == a) || has a xs

-- The list without the first copy of `a`.
abbrev pub erase : ℕ → List ℕ → List ℕ
erase a [] = []
erase a (x ∷ xs) = if x == a then xs else x ∷ erase a xs

pub has-append : (a : ℕ) (xs ys : List ℕ) → has a (xs ++ ys) ≡ (has a xs || has a ys)
has-append a [] ys = ground arith
has-append a (x ∷ xs) ys = ground (arith, has-append a xs ys)

pub has-erase : (a b : ℕ) (xs : List ℕ) → has b xs ≡ false → has b (erase a xs) ≡ false
has-erase a b [] h = h
has-erase a b (x ∷ xs) h = ground (arith, has-erase a b xs)

pub has-erase_ne : (a b : ℕ) (xs : List ℕ) → (a == b) ≡ false → has b (erase a xs) ≡ has b xs
has-erase_ne a b [] h = ground arith
has-erase_ne a b (x ∷ xs) h = ground (arith, has-erase_ne a b xs h)

pub length-erase : (a : ℕ) (xs : List ℕ) → has a xs ≡ true → length (erase a xs) + 1 ≡ length xs
length-erase a [] h = ground arith
length-erase a (x ∷ xs) h = ground (arith, length-erase a xs)

pub has_here : (a y : ℕ) (xs : List ℕ) → y ≡ a → has a (y ∷ xs) ≡ true
has_here a y xs e = ground arith

pub has_there : (a y : ℕ) (xs : List ℕ) → has a xs ≡ true → has a (y ∷ xs) ≡ true
has_there a y xs e = ground arith

pub has_tail : (a y : ℕ) (xs : List ℕ) → has a (y ∷ xs) ≡ true → (y == a) ≡ false → has a xs ≡ true
has_tail a y xs h e = ground arith

pub has_not_tail : (a y : ℕ) (xs : List ℕ) → has a (y ∷ xs) ≡ false → has a xs ≡ false
has_not_tail a y xs h = ground arith

pub ne_of_has : (a b : ℕ) (xs : List ℕ) → has a xs ≡ true → has b xs ≡ false → (b == a) ≡ false
ne_of_has a b [] h k = cc
ne_of_has a b (x ∷ xs) h k = ground (arith, ne_of_has a b xs)

pub ne_sym : (a b : ℕ) → (a == b) ≡ false → (b == a) ≡ false
ne_sym a b h = ground arith
