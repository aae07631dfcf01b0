-- ===== src/Queue.antt =====
-- A doubly linked queue of numbered entries, as the super block keeps two of on disk
-- (src/HCFS/super_block.c): what its links must satisfy, over any family of links.
pub mod Chain
pub mod Neighbours
pub mod Erase
pub mod Changes
use hcfs.Base.{ℕ, ◌≡◌, ◌≢◌, Bool, true, false, List, [], ◌∷◌, ◌==◌, if◌then◌else◌, has}

-- `next` and `prev` are 0 where there is no neighbour.
pub record Links : Type 0 where
  pub member : Bool
  pub prev : ℕ
  pub next : ℕ

abbrev pub head_or_zero : List ℕ → ℕ
head_or_zero [] = 0
head_or_zero (x ∷ xs) = x

abbrev pub last_or : ℕ → List ℕ → ℕ
last_or p [] = p
last_or p (x ∷ xs) = last_or x xs

-- From `p` on the entries `xs` follow one another, each linked to both neighbours.
abbrev pub Chain : (ℕ → Links) → ℕ → List ℕ → Type 0
Chain l p [] = Unit
Chain l p (x ∷ xs) =
    (x ≢ 0)
    × (has x xs ≡ false)
    × (l x ≡ record { member = true; prev = p; next = head_or_zero xs })
    × Chain l x xs

-- A queue holds the entries `xs`, in order, and no other entry is a member.
pub record IsQueue (l : ℕ → Links) (first last : ℕ) (xs : List ℕ) : Type 0 where
  pub chain : Chain l 0 xs
  pub first_eq : first ≡ head_or_zero xs
  pub last_eq : last ≡ last_or 0 xs
  pub complete : (i : ℕ) → (l i).member ≡ true → has i xs ≡ true

-- The links with `pv` and `nx` joined to each other.
abbrev pub relink : (ℕ → Links) → ℕ → ℕ → ℕ → Links
relink l pv nx i = record {
  member = (l i).member;
  prev = if i == nx then pv else (l i).prev;
  next = if i == pv then nx else (l i).next;
}
