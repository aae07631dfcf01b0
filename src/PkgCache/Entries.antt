-- ===== src/PkgCache/Entries.antt =====
-- One list of the package cache: what is found after a change, and names that stay apart.
use hcfs.Base.{
  ◌+◌, suc, ◌≡◌, refl, true, false, List, [], ◌∷◌, Option, none, some, if◌then◌else◌, length, arith,
  Bool-cases, inl, inr, ◌∙◌, sym, ap,
}
use hcfs.PkgCache.{Name, PkgCacheEntry, name_eq, find_entry, remove_entry, drop_last}

pub name_eq_refl : (xs : Name) → name_eq xs xs ≡ true
name_eq_refl [] = refl
name_eq_refl (x ∷ xs) = ground (arith, name_eq_refl xs)

pub name_eq-swap : (xs ys : Name) → name_eq xs ys ≡ name_eq ys xs
name_eq-swap [] [] = refl
name_eq-swap [] (y ∷ ys) = refl
name_eq-swap (x ∷ xs) [] = refl
name_eq-swap (x ∷ xs) (y ∷ ys) = ground (arith, name_eq-swap xs ys)

pub eq_of_name_eq : (xs ys : Name) → name_eq xs ys ≡ true → xs ≡ ys
eq_of_name_eq [] [] h = refl
eq_of_name_eq [] (y ∷ ys) h = cc
eq_of_name_eq (x ∷ xs) [] h = cc
eq_of_name_eq (x ∷ xs) (y ∷ ys) h = ground (arith, eq_of_name_eq xs ys)

-- The names of a list are different.
abbrev pub AreApart : List PkgCacheEntry → Type 0
AreApart [] = Unit
AreApart (e ∷ es) = (find_entry e.pkgname es ≡ none) × AreApart es

abbrev name_or : Name → Option PkgCacheEntry → Name
name_or name none = name
name_or name (some e) = e.pkgname

pub find-name :
    (name : Name) (e : PkgCacheEntry) (es : List PkgCacheEntry)
    → find_entry name es ≡ some e
    → name ≡ e.pkgname
find-name name e [] h = cc
find-name name e (d ∷ es) h = elim (Bool-cases (name_eq name d.pkgname)) [
  | inl same ↦
      let d_eq : some d ≡ some e = rw same at h in
      eq_of_name_eq name d.pkgname same ∙ ap (name_or name) d_eq
  | inr other ↦ find-name name e es (rw other at h)
]

-- Equal names are found alike, and compare alike.
pub find-same :
    (a b : Name) (es : List PkgCacheEntry) → name_eq a b ≡ true → find_entry a es ≡ find_entry b es
find-same a b es h = ap (λ n. find_entry n es) (eq_of_name_eq a b h)

name_eq-same : (a b c : Name) → name_eq a b ≡ true → name_eq a c ≡ name_eq b c
name_eq-same a b c h = ap (λ n. name_eq n c) (eq_of_name_eq a b h)

name_eq-sym : (a b : Name) → name_eq a b ≡ true → name_eq b a ≡ true
name_eq-sym a b h = sym (name_eq-same a b a h) ∙ name_eq_refl a

pub find-remove :
    (name other : Name) (es : List PkgCacheEntry)
    → AreApart es
    → find_entry other (remove_entry name es)
      ≡ (if name_eq name other then none else find_entry other es)
find-remove name other [] l = elim (Bool-cases (name_eq name other)) [ inl e ↦ rw e | inr e ↦ rw e ]
find-remove name other (e ∷ es) l = elim (Bool-cases (name_eq name e.pkgname)) [
  | inl same ↦ elim (Bool-cases (name_eq name other)) [
    | inl s ↦
        rw (same, s) (sym (find-same name other es s) ∙ find-same name e.pkgname es same ∙ l.0)
    | inr d ↦ rw (same, d, not_this same d)
  ]
  | inr differs ↦ elim (Bool-cases (name_eq name other)) [
    | inl s ↦
        let other_differs : name_eq other e.pkgname ≡ false =
          sym (name_eq-same name other e.pkgname s) ∙ differs in
        rw (differs, s, other_differs) (find-remove name other es l.1 ∙ rw s)
    | inr d ↦
        rw (differs, d)
          (ap (λ o. if name_eq other e.pkgname then some e else o)
            (find-remove name other es l.1 ∙ rw d))
  ]
]
  where
    not_this :
        name_eq name e.pkgname ≡ true → name_eq name other ≡ false → name_eq other e.pkgname ≡ false
    not_this same d = elim (Bool-cases (name_eq other e.pkgname)) [
      | inl s ↦ cc (name_eq-same name e.pkgname other same ∙ name_eq-sym other e.pkgname s)
      | inr f ↦ f
    ]

pub remove-AreApart :
    (name : Name) (es : List PkgCacheEntry) → AreApart es → AreApart (remove_entry name es)
remove-AreApart name [] l = tt
remove-AreApart name (e ∷ es) l = elim (Bool-cases (name_eq name e.pkgname)) [
  | inl same ↦ rw same l.1
  | inr differs ↦ rw differs (absent differs, remove-AreApart name es l.1)
]
  where
    absent : name_eq name e.pkgname ≡ false → find_entry e.pkgname (remove_entry name es) ≡ none
    absent differs = find-remove name e.pkgname es l.1 ∙ rw (differs, l.0)

pub length-remove :
    (name : Name) (e : PkgCacheEntry) (es : List PkgCacheEntry)
    → find_entry name es ≡ some e
    → length (remove_entry name es) + 1 ≡ length es
length-remove name e [] h = cc
length-remove name e (d ∷ es) h = ground (arith, length-remove name e es)

pub find-drop_none :
    (name : Name) (es : List PkgCacheEntry)
    → find_entry name es ≡ none
    → find_entry name (drop_last es) ≡ none
find-drop_none name [] h = refl
find-drop_none name (e ∷ []) h = refl
find-drop_none name (e ∷ d ∷ es) h = ground (arith, find-drop_none name (d ∷ es))

pub drop-AreApart : (es : List PkgCacheEntry) → AreApart es → AreApart (drop_last es)
drop-AreApart [] l = tt
drop-AreApart (e ∷ []) l = tt
drop-AreApart (e ∷ d ∷ es) l = (find-drop_none e.pkgname (d ∷ es) l.0, drop-AreApart (d ∷ es) l.1)

pub length-drop :
    (e : PkgCacheEntry) (es : List PkgCacheEntry) → length (drop_last (e ∷ es)) ≡ length es
length-drop e [] = refl
length-drop e (d ∷ es) = ap suc (length-drop d es)
