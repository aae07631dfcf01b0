-- ===== src/Progress/Longpow.antt =====
-- The `longpow` of src/HCFS/atomic_tocloud.c, with a table and fast exponentiation, against that of
-- src/HCFS/metaops.c. A 64-bit integer is its value modulo 2^64.
use native.Mathlib.Nat.{add-mul-mod_self_left, div-add-mod}
use hcfs.Base.{
  ℕ, zero, suc, ◌+◌, ◌-◌, ◌*◌, ◌/◌, ◌%◌, ◌^◌, ◌<◌, ◌≡◌, ◌∙◌, refl, sym, ap, true, false, ◌∷◌, [],
  Option, none, some, arith, ◌==◌, leb, ◌&&◌, if◌then◌else◌, Bool-cases, inl, inr, ==_iff, get_or,
}
use hcfs.Base.Int.{ℤ, pos, negsuc}
use hcfs.Pages.Levels

abbrev pub two_64 : ℕ
two_64 = 18446744073709551616

unfoldable pub pow1024 : ℕ → ℕ
pow1024 i =
    get_or
      (1 ∷ 1024 ∷ 1048576 ∷ 1073741824 ∷ 1099511627776 ∷ 1125899906842624 ∷ 1152921504606846976
        ∷ [])
      i 0

-- The loop; `none` where the fuel is used up.
unfoldable pub longpow_loop : (fuel r base power : ℕ) → Option ℕ
longpow_loop zero r base power = none
longpow_loop (suc fuel) r base power = elim (power == 0) [
  | true ↦ some r
  | false ↦ elim (power % 2 == 1) [
    | true ↦ longpow_loop fuel (r * base % two_64) (base * base % two_64) ((power - 1) / 2)
    | false ↦ longpow_loop fuel r (base * base % two_64) (power / 2)
  ]
]

unfoldable pub longpow : ℕ → ℤ → Option ℕ
unfolding longpow_loop pow1024
longpow base (negsuc n) = some 0
longpow base (pos power) =
    if base == 1024 && leb power 6 then some (pow1024 power) else longpow_loop 32 1 base power

-- Remainders and powers.
distribute : (w q r b : ℕ) → (w * q + r) * b ≡ r * b + w * (q * b)
distribute w q r b = grind arith

mod_mul : (a b w : ℕ) → a % w * b % w ≡ a * b % w
mod_mul a b w = sym (
    ap (λ x. x * b % w) (sym (div-add-mod a w))
    ∙ ap (λ x. x % w) (distribute w (a / w) (a % w) b)
    ∙ add-mul-mod_self_left (a % w * b) w (a / w * b))

mul_comm : (a b : ℕ) → a * b ≡ b * a
mul_comm a b = grind arith

mul_assoc : (a b c : ℕ) → a * (b * c) ≡ a * b * c
mul_assoc a b c = grind arith

swap_right : (a b c : ℕ) → a * b * c ≡ a * c * b
swap_right a b c = grind arith

mul_mod : (a b w : ℕ) → a * (b % w) % w ≡ a * b % w
mul_mod a b w =
    ap (λ x. x % w) (mul_comm a (b % w)) ∙ mod_mul b a w ∙ ap (λ x. x % w) (mul_comm b a)

power_mod : (base p w r : ℕ) → r * Levels.longpow (base % w) p % w ≡ r * Levels.longpow base p % w
unfolding Levels.longpow
power_mod base zero w r = refl
power_mod base (suc p) w r =
    ap (λ x. x % w) (mul_assoc r (Levels.longpow (base % w) p) (base % w))
    ∙ mul_mod (r * Levels.longpow (base % w) p) base w
    ∙ ap (λ x. x % w) (swap_right r (Levels.longpow (base % w) p) base)
    ∙ power_mod base p w (r * base)
    ∙ ap (λ x. x % w)
        (swap_right r base (Levels.longpow base p) ∙ sym (mul_assoc r (Levels.longpow base p) base))

power_double : (base h : ℕ) → Levels.longpow (base * base) h ≡ Levels.longpow base (h + h)
unfolding Levels.longpow
power_double base zero = refl
power_double base (suc h) =
    ap (λ x. x * (base * base)) (power_double base h)
    ∙ mul_assoc (Levels.longpow base (h + h)) base base
    ∙ ap (Levels.longpow base) (two_more h)
  where
    two_more : (h : ℕ) → suc (suc (h + h)) ≡ suc h + suc h
    two_more h = omega arith

-- A round for an even and one for an odd power.
even_round :
    (r base h w : ℕ)
    → r * Levels.longpow (base * base % w) h % w ≡ r * Levels.longpow base (h + h) % w
even_round r base h w = power_mod (base * base) h w r ∙ ap (λ x. r * x % w) (power_double base h)

odd_round :
    (r base h w : ℕ)
    → r * base % w * Levels.longpow (base * base % w) h % w
      ≡ r * Levels.longpow base (suc (h + h)) % w
unfolding Levels.longpow
odd_round r base h w =
    mod_mul (r * base) (Levels.longpow (base * base % w) h) w
    ∙ even_round (r * base) base h w
    ∙ ap (λ x. x % w)
        (swap_right r base (Levels.longpow base (h + h))
          ∙ sym (mul_assoc r (Levels.longpow base (h + h)) base))

-- Nothing is left to multiply.
no_power : (r base p : ℕ) → r < two_64 → p ≡ 0 → r ≡ r * Levels.longpow base p % two_64
unfolding Levels.longpow
no_power r base p small e = rw e (omega (arith, small))

even_half : (p : ℕ) → (p % 2 == 1) ≡ false → p / 2 + p / 2 ≡ p
even_half p e = ground arith

odd_half : (p : ℕ) → (p % 2 == 1) ≡ true → suc ((p - 1) / 2 + (p - 1) / 2) ≡ p
odd_half p e = ground arith

longpow_loop-power :
    (n r base p : ℕ)
    → p < 2 ^ n
    → r < two_64
    → longpow_loop (suc n) r base p ≡ some (r * Levels.longpow base p % two_64)
unfolding longpow_loop
longpow_loop-power zero r base p few small =
    let e : p ≡ 0 = omega (arith, few) in
    rw (longpow_loop, (==_iff p 0).1 e) (ap some (no_power r base p small e))
longpow_loop-power (suc n) r base p few small = elim (Bool-cases (p == 0)) [
  | inl e ↦ rw (longpow_loop, e) (ap some (no_power r base p small ((==_iff p 0).0 e)))
  | inr e ↦ elim (Bool-cases (p % 2 == 1)) [
    | inl odd ↦
        rw (longpow_loop, e, odd)
          (longpow_loop-power n (r * base % two_64) (base * base % two_64) ((p - 1) / 2)
              (omega (arith, few)) (omega arith)
            ∙ ap some (
                odd_round r base ((p - 1) / 2) two_64
                ∙ ap (λ q. r * Levels.longpow base q % two_64) (odd_half p odd)))
    | inr even ↦
        rw (longpow_loop, e, even)
          (longpow_loop-power n r (base * base % two_64) (p / 2) (omega (arith, few)) small
            ∙ ap some (
                even_round r base (p / 2) two_64
                ∙ ap (λ q. r * Levels.longpow base q % two_64) (even_half p even)))
  ]
]

pow1024-power : (p : ℕ) → leb p 6 ≡ true → pow1024 p ≡ Levels.longpow 1024 p % two_64
unfolding pow1024 Levels.longpow
pow1024-power zero h = refl
pow1024-power (suc zero) h = refl
pow1024-power (suc (suc zero)) h = refl
pow1024-power (suc (suc (suc zero))) h = refl
pow1024-power (suc (suc (suc (suc zero)))) h = refl
pow1024-power (suc (suc (suc (suc (suc zero))))) h = refl
pow1024-power (suc (suc (suc (suc (suc (suc zero)))))) h = refl
pow1024-power (suc (suc (suc (suc (suc (suc (suc p))))))) h = ground arith

fast_path : (base p : ℕ) → (base == 1024 && leb p 6) ≡ true → (base ≡ 1024) × (leb p 6 ≡ true)
fast_path base p h = ground arith

one_mul : (a : ℕ) → 1 * a ≡ a
one_mul a = omega arith

-- For every base and every power that an int32_t holds and that is not negative, the `longpow` of
-- atomic_tocloud.c ends, and its 64-bit result is the one of the `longpow` of metaops.c, which
-- multiplies `power` times, modulo 2^64: on the way by the table as well as by the loop.
pub longpow-power :
    (base p : ℕ) → p < 2147483648 → longpow base (pos p) ≡ some (Levels.longpow base p % two_64)
unfolding longpow
longpow-power base p few = elim (Bool-cases (base == 1024 && leb p 6)) [
  | inl fast ↦
      rw (longpow, fast)
        (ap some (pow1024-power p (fast_path base p fast).1)
          ∙ ap (λ b. some (Levels.longpow b p % two_64)) (sym (fast_path base p fast).0))
  | inr slow ↦
      rw (longpow, slow)
        (longpow_loop-power 31 1 base p few (omega arith) ∙ ap (λ x. some (x % two_64)) (one_mul _))
]
