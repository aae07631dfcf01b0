-- ===== src/Pages/Paths.antt =====
-- Paths to pages of data: they are complete and differ for different pages.
use hcfs.Base.{
  Errno, err, ◌⊎◌, ℕ, zero, suc, ◌+◌, ◌-◌, ◌==◌, ltb, Bool-cases, inl, inr, ◌^◌, Result, ◌*◌, ◌/◌,
  ◌%◌, ◌<◌, ◌≤◌, ◌≡◌, ◌≢◌, ◌∙◌, ap, sym, refl, subst, List, [], ◌∷◌, ◌++◌, ok, err, einval, arith,
  length, length-append,
}
use hcfs.Pages.Tree.{IsTree, rev_onto, walk, walk-place}
use hcfs.Pages.Levels.{
  Complete, check_page_level, digits, index_in_level, longpow, path, path_below, subtract_levels,
}

pub longpow_pos : (n : ℕ) → 0 < longpow 1024 n
unfolding longpow
longpow_pos zero = omega arith
longpow_pos (suc n) = omega (arith, longpow_pos n)

div_mod_eq : (w a b : ℕ) → a / w ≡ b / w → a % w ≡ b % w → a ≡ b
div_mod_eq w a b h k = grind arith

pub div_lt : (w a : ℕ) → 0 < w → a < w * 1024 → a / w < 1024
div_lt w a h k = grind arith

pub mod_lt : (w a : ℕ) → 0 < w → a % w < w
mod_lt w a h = grind arith

head_eq : (a b : ℕ) (xs ys : List ℕ) → a ∷ xs ≡ b ∷ ys → a ≡ b
head_eq a b xs ys h = cc

tail_eq : (a b : ℕ) (xs ys : List ℕ) → a ∷ xs ≡ b ∷ ys → xs ≡ ys
tail_eq a b xs ys h = cc

digits-injective : (c a b : ℕ) → digits c a ≡ digits c b → a ≡ b
unfolding digits
digits-injective zero a b h = cc
digits-injective (suc c) a b h =
    div_mod_eq (longpow 1024 (suc c)) a b (head_eq _ _ _ _ h)
      (digits-injective c _ _ (tail_eq _ _ _ _ h))

length-digits : (c a : ℕ) → length (digits c a) ≡ suc c
unfolding digits
length-digits zero a = refl
length-digits (suc c) a = ap suc (length-digits c _)

pub path-Complete : (level target_page : ℕ) → Complete (path level target_page)
unfolding path path_below
path-Complete zero t = refl
path-Complete (suc l) t = length-digits l _

-- The level of a page and its number there.
pub level_bounds :
    (t l : ℕ)
    → check_page_level t ≡ ok (suc l)
    → (l < 4) × (index_in_level (suc l) t < longpow 1024 (suc l))
unfolding check_page_level index_in_level subtract_levels longpow
level_bounds t zero h = ground arith
level_bounds t (suc zero) h = ground arith
level_bounds t (suc (suc zero)) h = ground arith
level_bounds t (suc (suc (suc zero))) h = ground arith
level_bounds t (suc (suc (suc (suc l)))) h = ground arith

-- The number of pages of the levels below `level`, which is the first page of this one.
unfoldable pub first_page : ℕ → ℕ
first_page zero = 0
first_page (suc zero) = 1
first_page (suc (suc level)) = first_page (suc level) + 1024 ^ suc level

abbrev pub LevelOf : ℕ → Result ℕ → Type 0
LevelOf t (ok l) = (l ≤ 4) × (first_page l ≤ t) × (t < first_page (suc l))
LevelOf t (err e) = (e ≡ einval) × (first_page 5 ≤ t)

-- `check_page_level` gives the level between whose first page and that of the next one the page lies,
-- a level of at most 4, and -EINVAL exactly for the pages behind the fourth level.
pub check_page_level-LevelOf : (t : ℕ) → LevelOf t (check_page_level t)
unfolding check_page_level longpow first_page
check_page_level-LevelOf t = elim (Bool-cases (t == 0)) [
  | inl e ↦ rw e (ground arith)
  | inr e ↦ rw e (elim (Bool-cases (ltb (t - 1) 1024)) [
    | inl e1 ↦ rw e1 (ground arith)
    | inr e1 ↦ rw e1 (elim (Bool-cases (ltb (t - 1 - 1024) 1048576)) [
      | inl e2 ↦ rw e2 (ground arith)
      | inr e2 ↦ rw e2 (elim (Bool-cases (ltb (t - 1 - 1024 - 1048576) 1073741824)) [
        | inl e3 ↦ rw e3 (ground arith)
        | inr e3 ↦
            rw e3 (elim (Bool-cases (ltb (t - 1 - 1024 - 1048576 - 1073741824) 1099511627776)) [
              | inl e4 ↦ rw e4 (ground arith)
              | inr e4 ↦ rw e4 (ground arith)
            ])
      ])
    ])
  ])
]

pub level_le : (t l : ℕ) → check_page_level t ≡ ok l → l ≤ 4
level_le t l h = (subst (LevelOf t) h (check_page_level-LevelOf t)).0

pub Level-cases : (r : Result ℕ) → ((l : ℕ) × (r ≡ ok l)) ⊎ ((e : Errno) × (r ≡ err e))
Level-cases (ok l) = inl (l, refl)
Level-cases (err e) = inr (e, refl)

pub index-in_range :
    (t l : ℕ) → check_page_level t ≡ ok (suc l) → first_page (suc l) + index_in_level (suc l) t ≡ t
unfolding check_page_level index_in_level subtract_levels longpow first_page
index-in_range t zero h = ground arith
index-in_range t (suc zero) h = ground arith
index-in_range t (suc (suc zero)) h = ground arith
index-in_range t (suc (suc (suc zero))) h = ground arith
index-in_range t (suc (suc (suc (suc l)))) h = ground arith

level_zero : (t : ℕ) → check_page_level t ≡ ok 0 → t ≡ 0
unfolding check_page_level longpow
level_zero t h = ground arith

path_below-injective :
    (l t u : ℕ)
    → check_page_level t ≡ ok l
    → check_page_level u ≡ ok l
    → path_below l t ≡ path_below l u
    → t ≡ u
unfolding path_below
path_below-injective zero t u h k e = level_zero t h ∙ sym (level_zero u k)
path_below-injective (suc l) t u h k e =
    omega (arith, index-in_range t l h, index-in_range u l k, digits-injective l _ _ e)

pub path-injective :
    (l m t u : ℕ)
    → check_page_level t ≡ ok l
    → check_page_level u ≡ ok m
    → path l t ≡ path m u
    → t ≡ u
unfolding path
path-injective l m t u h k e =
    path_below-injective l t u h
      (subst (λ n. check_page_level u ≡ ok n) (sym (head_eq _ _ _ _ e)) k)
      (tail_eq _ _ _ _ e ∙ ap (λ n. path_below n u) (sym (head_eq _ _ _ _ e)))

-- Lists.
pub rev_onto-eq : (xs ys zs : List ℕ) → rev_onto xs ys ++ zs ≡ rev_onto xs (ys ++ zs)
rev_onto-eq [] ys zs = refl
rev_onto-eq (x ∷ xs) ys zs = rev_onto-eq xs (x ∷ ys) zs

rev_onto-rev_onto : (xs ys : List ℕ) → rev_onto (rev_onto xs ys) [] ≡ rev_onto ys xs
rev_onto-rev_onto [] ys = refl
rev_onto-rev_onto (x ∷ xs) ys = rev_onto-rev_onto xs (x ∷ ys)

not_longer : (is : List ℕ) (j : ℕ) (js : List ℕ) → Complete is → Complete (is ++ j ∷ js) → ⊥
not_longer [] j js h k = h
not_longer (i ∷ is) j js h k = omega (arith, length-append is (j ∷ js))

-- A complete path does not end on the way of another one.
pub not_on_the_way :
    (other r : List ℕ) (j : ℕ) (js : List ℕ)
    → Complete other
    → rev_onto other [] ≡ r
    → Complete (rev_onto r (j ∷ js))
    → ⊥
not_on_the_way other r j js complete e longer =
    not_longer (rev_onto r []) j js
      (subst Complete (sym (rev_onto-rev_onto other []) ∙ ap (λ l. rev_onto l []) e) complete)
      (subst Complete (sym (rev_onto-eq r [] (j ∷ js))) longer)

pub rev_onto-injective : (xs ys r : List ℕ) → rev_onto xs [] ≡ r → rev_onto r [] ≡ ys → xs ≡ ys
rev_onto-injective xs ys r e f = sym (rev_onto-rev_onto xs []) ∙ ap (λ l. rev_onto l []) e ∙ f

walk-below :
    (cells : ℕ → ℕ → ℕ) (file_end : ℕ) (place : ℕ → List ℕ)
    → IsTree cells file_end place
    → (p i : ℕ) (is : List ℕ) → walk cells p (i ∷ is) < file_end
unfolding walk
walk-below cells e place tree p i [] = ground (arith, tree.below p i, tree.begun)
walk-below cells e place tree p i (j ∷ is) =
    ground (arith, walk-below cells e place tree (cells p i) j is, tree.begun)

-- Two complete paths that lead to the same page are one.
pub walk-injective :
    (cells : ℕ → ℕ → ℕ) (file_end : ℕ) (place : ℕ → List ℕ)
    → IsTree cells file_end place
    → (xs ys : List ℕ) → walk cells 0 xs ≡ walk cells 0 ys
    → walk cells 0 xs ≢ 0
    → xs ≡ ys
walk-injective cells e place tree xs ys same there =
    rev_onto-injective xs ys (rev_onto ys [])
      (ap (rev_onto xs) (sym tree.root)
        ∙ sym (walk-place cells e place tree 0 xs there)
        ∙ ap place same
        ∙ walk-place cells e place tree 0 ys (λ z. there (same ∙ z))
        ∙ ap (rev_onto ys) tree.root)
      (rev_onto-rev_onto ys [])

pub path-below :
    (cells : ℕ → ℕ → ℕ) (file_end : ℕ) (place : ℕ → List ℕ)
    → IsTree cells file_end place
    → (level target_page : ℕ) → walk cells 0 (path level target_page) < file_end
unfolding path
path-below cells e place tree level t = walk-below cells e place tree 0 level (path_below level t)
