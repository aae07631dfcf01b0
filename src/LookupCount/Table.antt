-- ===== src/LookupCount/Table.antt =====
-- One list of the table of lookup counts: looking up after a change, and nodes that stay apart.
use hcfs.Base.{
  ℕ, ◌≡◌, false, List, [], ◌∷◌, none, some, ◌==◌, if◌then◌else◌, arith, Bool-cases, inl, inr,
}
use hcfs.LookupCount.{LookupNode, find_node, change_node, remove_node, index_of}

-- The nodes of a list have different inodes, and lie in the list of their inode.
abbrev pub IsList : ℕ → List LookupNode → Type 0
IsList index [] = Unit
IsList index (n ∷ ns) =
    (index_of n.this_inode ≡ index) × (find_node n.this_inode ns ≡ none) × IsList index ns

pub find-change :
    (ino j : ℕ) (n m : LookupNode) (ns : List LookupNode)
    → find_node ino ns ≡ some n
    → m.this_inode ≡ ino
    → find_node j (change_node ino m ns) ≡ (if ino == j then some m else find_node j ns)
find-change ino j n m [] h e = cc
find-change ino j n m (k ∷ ns) h e = ground (arith, find-change ino j n m ns)

pub find-remove :
    (index ino j : ℕ) (ns : List LookupNode)
    → IsList index ns
    → find_node j (remove_node ino ns) ≡ (if ino == j then none else find_node j ns)
find-remove index ino j [] l = ground arith
find-remove index ino j (k ∷ ns) l = ground (arith, l.1, find-remove index ino j ns l.2)

pub find-this :
    (ino : ℕ) (n : LookupNode) (ns : List LookupNode)
    → find_node ino ns ≡ some n
    → n.this_inode ≡ ino
find-this ino n [] h = cc
find-this ino n (k ∷ ns) h = ground (arith, find-this ino n ns)

pub change-IsList :
    (index ino : ℕ) (n m : LookupNode) (ns : List LookupNode)
    → IsList index ns
    → find_node ino ns ≡ some n
    → m.this_inode ≡ ino
    → IsList index (change_node ino m ns)
change-IsList index ino n m [] l h e = tt
change-IsList index ino n m (k ∷ ns) l h e = elim (Bool-cases (k.this_inode == ino)) [
  | inl same ↦ let m_eq : m.this_inode ≡ k.this_inode = ground (arith, e, same) in rw (same, m_eq) l
  | inr other ↦ rw other (l.0, absent other, change-IsList index ino n m ns l.2 (tail other) e)
]
  where
    tail : (k.this_inode == ino) ≡ false → find_node ino ns ≡ some n
    tail ne = rw ne at h

    absent : (k.this_inode == ino) ≡ false → find_node k.this_inode (change_node ino m ns) ≡ none
    absent ne = ground (arith, find-change ino k.this_inode n m ns (tail ne) e, l.1)

pub remove-IsList :
    (index ino : ℕ) (ns : List LookupNode) → IsList index ns → IsList index (remove_node ino ns)
remove-IsList index ino [] l = tt
remove-IsList index ino (k ∷ ns) l = elim (Bool-cases (k.this_inode == ino)) [
  | inl same ↦ rw same l.2
  | inr other ↦ rw other (l.0, absent, remove-IsList index ino ns l.2)
]
  where
    absent : find_node k.this_inode (remove_node ino ns) ≡ none
    absent = ground (arith, find-remove index ino k.this_inode ns l.2, l.1)
