-- ===== src/Pages/Levels.antt =====
-- The levels of the page table: `longpow` and `check_page_level` (src/HCFS/metaops.c), and the path
-- of a page, which the loops of both programs walk.
use hcfs.Base.{
  ℕ, zero, suc, ◌+◌, ◌-◌, ◌*◌, ◌/◌, ◌%◌, List, [], ◌∷◌, einval, Result, ok, err, ltb, ◌==◌,
  if◌then◌else◌, length, ◌≡◌,
}

-- POINTERS_PER_PAGE.
abbrev pub pointers_per_page : ℕ
pointers_per_page = 1024

-- The loop runs `power` times. Nothing overflows for the powers that are taken, up to the fourth.
unfoldable pub longpow : ℕ → ℕ → ℕ
longpow base zero = 1
longpow base (suc power) = longpow base power * base

-- The number of pages of pointers above the page, or -EINVAL behind the last one.
unfoldable pub check_page_level : ℕ → Result ℕ
unfolding longpow
check_page_level page_index =
    let first = page_index - 1 in
    let second = first - pointers_per_page in
    let third = second - longpow pointers_per_page 2 in
    let fourth = third - longpow pointers_per_page 3 in
    if page_index == 0
    then ok 0
    else (if ltb first pointers_per_page
        then ok 1
        else (if ltb second (longpow pointers_per_page 2)
            then ok 2
            else (if ltb third (longpow pointers_per_page 3)
                then ok 3
                else (if ltb fourth (longpow pointers_per_page 4) then ok 4 else err einval))))

-- for (count = 1; count < level; count++) index -= longpow(POINTERS_PER_PAGE, count)
unfoldable pub subtract_levels : (rounds count index : ℕ) → ℕ
subtract_levels zero count index = index
subtract_levels (suc rounds) count index =
    subtract_levels rounds (count + 1) (index - longpow pointers_per_page count)

-- The number of the page among those of its level.
unfoldable pub index_in_level : (level target_page : ℕ) → ℕ
unfolding subtract_levels longpow
index_in_level level target_page = subtract_levels (level - 1) 1 (target_page - 1)

-- The indices that are read on the way to the `index`-th page below a page of pointers with `count`
-- levels of such pages below it.
unfoldable pub digits : (count index : ℕ) → List ℕ
digits zero index = index ∷ []
digits (suc count) index =
    let unit = longpow pointers_per_page (suc count) in (index / unit) ∷ digits count (index % unit)

unfoldable pub path_below : (level target_page : ℕ) → List ℕ
path_below zero target_page = []
path_below (suc level) target_page = digits level (index_in_level (suc level) target_page)

unfoldable pub path : (level target_page : ℕ) → List ℕ
unfolding path_below
path level target_page = level ∷ path_below level target_page

-- The paths that lead to a page of data.
abbrev pub Complete : List ℕ → Type 0
Complete [] = ⊥
Complete (level ∷ is) = length is ≡ level
