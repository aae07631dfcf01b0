-- ===== src/Base/Family.antt =====
-- Sums of a weight over the threads below a number.
use Prim.Native.Nat.{ℕ, zero, suc, ◌+◌, ◌≤◌, ◌<◌}
use mathlib.Core.Path.{◌≡◌, refl}
use native.Mathlib.Omega.{arith}
use hcfs.Base.Tests.{◌==◌, Bool-cases, ==_iff}
use mathlib.Core.Bool.{false}
use mathlib.Core.Logic.{◌⊎◌, inl, inr}
use hcfs.Base.Tables.{update}

pub zero_or_more : (n : ℕ) → (n ≡ 0) ⊎ (0 < n)
zero_or_more zero = inl refl
zero_or_more (suc n) = inr (omega arith)

module _ {ℓ} {A : Type ℓ} (weight : A → ℕ) where
  unfoldable pub sum_below : ℕ → (ℕ → A) → ℕ
  sum_below zero g = 0
  sum_below (suc n) g = weight (g n) + sum_below n g

  sum-outside :
      (n : ℕ) (g : ℕ → A) (i : ℕ) (x : A) → n ≤ i → sum_below n (update g i x) ≡ sum_below n g
  unfolding sum_below
  sum-outside zero g i x far = refl
  sum-outside (suc n) g i x far = ground (arith, sum-outside n g i x)

  -- One thread moves from `f i` to `a`.
  pub sum-update :
      (n : ℕ) (g : ℕ → A) (i : ℕ) (x : A)
      → i < n
      → sum_below n (update g i x) + weight (g i) ≡ sum_below n g + weight x
  unfolding sum_below
  sum-update zero g i x lt = absurd (omega arith)
  sum-update (suc n) g i x lt = elim (Bool-cases (i == n)) [
    | inl last ↦ ground (arith, sum-outside n g i x)
    | inr before ↦ ground (arith, sum-update n g i x)
  ]

  pub sum-bounded : ((x : A) → weight x ≤ 1) → (n : ℕ) (g : ℕ → A) → sum_below n g ≤ n
  unfolding sum_below
  sum-bounded small zero g = omega arith
  sum-bounded small (suc n) g = omega (arith, small (g n), sum-bounded small n g)

  pub sum-constant : (n : ℕ) (x : A) → weight x ≡ 0 → sum_below n (λ _. x) ≡ 0
  unfolding sum_below
  sum-constant zero x h = refl
  sum-constant (suc n) x h = omega (arith, sum-constant n x h)

  pub weight-le_sum : (n : ℕ) (g : ℕ → A) (i : ℕ) → i < n → weight (g i) ≤ sum_below n g
  unfolding sum_below
  weight-le_sum zero g i lt = absurd (omega arith)
  weight-le_sum (suc n) g i lt = elim (Bool-cases (i == n)) [
    | inl last ↦ ground arith
    | inr before ↦ ground (arith, weight-le_sum n g i)
  ]

  -- Two threads.
  pub weights-le_sum :
      (n : ℕ) (g : ℕ → A) (i j : ℕ)
      → i < n
      → j < n
      → (i == j) ≡ false
      → weight (g i) + weight (g j) ≤ sum_below n g
  unfolding sum_below
  weights-le_sum zero g i j lt lt' ne = absurd (omega arith)
  weights-le_sum (suc n) g i j lt lt' ne = elim (Bool-cases (i == n)) [
    | inl last ↦ ground (arith, weight-le_sum n g j)
    | inr before ↦ elim (Bool-cases (j == n)) [
      | inl last ↦ ground (arith, weight-le_sum n g i)
      | inr before' ↦ ground (arith, weights-le_sum n g i j)
    ]
  ]

  -- Two threads with a weight whose sum is at most 1 are one.
  pub one_thread :
      (n : ℕ) (g : ℕ → A) (i j : ℕ)
      → i < n
      → j < n
      → 0 < weight (g i)
      → 0 < weight (g j)
      → sum_below n g ≤ 1
      → i ≡ j
  one_thread n g i j lt lt' at_i at_j once = elim (Bool-cases (i == j)) [
    | inl same ↦ (==_iff i j).0 same
    | inr ne ↦ absurd (omega (arith, weights-le_sum n g i j lt lt' ne))
  ]

  -- A thread that has weight, where the sum is not zero.
  pub thread_of_sum :
      (n : ℕ) (g : ℕ → A) → 0 < sum_below n g → (i : ℕ) × (i < n) × (0 < weight (g i))
  unfolding sum_below
  thread_of_sum zero g some_weight = absurd (omega arith)
  thread_of_sum (suc n) g some_weight = elim (zero_or_more (weight (g n))) [
    | inl nothing ↦
        let (i, lt, w) = thread_of_sum n g (omega (arith, nothing)) in (i, omega arith, w)
    | inr w ↦ (n, omega arith, w)
  ]
