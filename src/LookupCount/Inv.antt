-- ===== src/LookupCount/Inv.antt =====
-- The table of lookup counts as a map from inodes to nodes.
use hcfs.Base.{
  ℕ, ◌≡◌, refl, true, List, ◌∷◌, Option, none, some, ok, ◌==◌, if◌then◌else◌, Bool-cases, inl, inr,
  ==_iff,
}
use hcfs.Base.Int.{ℤ}
use hcfs.Base.Tables.{update}
use hcfs.LookupCount.{
  LookupNode, LookupHead, LookupTable, Calls, Run, index_of, with_lock, finish_post, find_node,
  change_node, new_node, increased, increase_node,
}
use hcfs.LookupCount.Table.{IsList, find-change, find-this, change-IsList}

-- The map that the table stands for.
abbrev pub lookup : LookupTable → ℕ → Option LookupNode
lookup t j = find_node j (t (index_of j)).head

abbrev pub IsTable : LookupTable → Type 0
IsTable t = (i : ℕ) → IsList i (t i).head

-- The calls succeed.
pub record IsQuiet (c : Calls) : Type 0 where
  pub waits : c.wait ≡ none
  pub posts : c.post ≡ none
  pub allocates : c.has_memory ≡ true

-- The locks of two tables are in the same state.
abbrev pub SameLocks : LookupTable → LookupTable → Type 0
SameLocks t u = (i : ℕ) → (u i).entry_sem ≡ (t i).entry_sem

pub stored-find :
    (t : LookupTable) (i k ino j : ℕ) (h : LookupHead) (new : Option LookupNode)
    → ((ino == j) ≡ true → i ≡ k)
    → find_node j h.head ≡ (if ino == j then new else find_node j (t i).head)
    → find_node j (update t i h k).head ≡ (if ino == j then new else find_node j (t k).head)
stored-find t i k ino j h new same e = elim (Bool-cases (i == k)) [
  | inl eq ↦ let i_eq : i ≡ k = (==_iff i k).0 eq in rw eq (rw i_eq at e)
  | inr ne ↦ elim (Bool-cases (ino == j)) [
    | inl eq ↦ cc ((==_iff i k).1 (same eq))
    | inr ne' ↦ rw (ne, ne')
  ]
]

pub stored-IsTable :
    (t : LookupTable) (i : ℕ) (h : LookupHead)
    → IsTable t
    → IsList i h.head
    → IsTable (update t i h)
stored-IsTable t i h all own k = elim (Bool-cases (i == k)) [
  | inl eq ↦ let i_eq : i ≡ k = (==_iff i k).0 eq in rw eq (rw i_eq at own)
  | inr ne ↦ rw ne (all k)
]

pub stored-SameLocks :
    (t : LookupTable) (i : ℕ) (h : LookupHead)
    → h.entry_sem ≡ (t i).entry_sem
    → SameLocks t (update t i h)
stored-SameLocks t i h e k = elim (Bool-cases (i == k)) [
  | inl eq ↦ let i_eq : i ≡ k = (==_iff i k).0 eq in rw eq (rw i_eq at e)
  | inr ne ↦ rw ne
]

pub with_lock-ok :
    {A : Type 0} (c : Calls) (i : ℕ) (t : LookupTable) (body : LookupHead → Run A)
    → c.wait ≡ none
    → (t i).entry_sem ≡ 1
    → with_lock c i t body ≡ body (record { entry_sem = 0; head = (t i).head })
unfolding with_lock
with_lock-ok c i t body w e = rw (w, e)

-- A list in place of the one that the lock was taken for.
abbrev pub with_head : LookupTable → ℕ → List LookupNode → LookupTable
with_head t i ns = update t i (record { entry_sem = 1; head = ns })

abbrev pub after_increase : Option LookupNode → (ino : ℕ) → ℤ → ℕ → LookupNode
after_increase none ino amount d_type = new_node ino amount d_type
after_increase (some n) ino amount d_type = increased n amount

abbrev pub list_increased :
    Option LookupNode → (ino : ℕ) → ℤ → ℕ → List LookupNode → List LookupNode
list_increased none ino amount d_type ns = new_node ino amount d_type ∷ ns
list_increased (some n) ino amount d_type ns = change_node ino (increased n amount) ns

module _ (c : Calls) (quiet : IsQuiet c) (t : LookupTable) (ino : ℕ) where
  pub increase_node-ok :
      (o : Option LookupNode) (amount : ℤ) (d_type : ℕ) (ns : List LookupNode)
      → increase_node o c t ino amount d_type (record { entry_sem = 0; head = ns })
        ≡ some (
          ok (after_increase o ino amount d_type).lookup_count,
          with_head t (index_of ino) (list_increased o ino amount d_type ns),
        )
  unfolding increase_node finish_post
  increase_node-ok none amount d_type ns = rw (quiet.allocates, quiet.posts)
  increase_node-ok (some n) amount d_type ns = rw quiet.posts

pub list_increased-IsList :
    (index ino : ℕ) (amount : ℤ) (d_type : ℕ) (o : Option LookupNode) (ns : List LookupNode)
    → index_of ino ≡ index
    → find_node ino ns ≡ o
    → IsList index ns
    → IsList index (list_increased o ino amount d_type ns)
list_increased-IsList index ino amount d_type none ns e f l = (e, f, l)
list_increased-IsList index ino amount d_type (some n) ns e f l =
    change-IsList index ino n (increased n amount) ns l f (find-this ino n ns f)

pub list_increased-find :
    (ino j : ℕ) (amount : ℤ) (d_type : ℕ) (o : Option LookupNode) (ns : List LookupNode)
    → find_node ino ns ≡ o
    → find_node j (list_increased o ino amount d_type ns)
      ≡ (if ino == j then some (after_increase o ino amount d_type) else find_node j ns)
list_increased-find ino j amount d_type none ns f = refl
list_increased-find ino j amount d_type (some n) ns f =
    find-change ino j n (increased n amount) ns f (find-this ino n ns f)
