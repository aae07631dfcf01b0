-- ===== src/LookupCount/Ops.antt =====
-- The operations on lookup counts as changes of a map.
use hcfs.Base.{
  ℕ, ◌≡◌, refl, true, List, Option, none, some, ok, err, einval, ◌==◌, if◌then◌else◌, ◌∙◌, ap,
  Bool-cases, inl, inr, ==_iff, sym,
}
use hcfs.Base.Int.{ℤ, is_zero_ℤ}
use hcfs.LookupCount.{
  LookupNode, LookupTable, Calls, index_of, finish_post, ignore_post, find_node, change_node,
  remove_node, decreased, increase_node, lookup_increase, decrease_node, lookup_decrease, mark_node,
  lookup_markdelete,
}
use hcfs.LookupCount.Table.{
  IsList, find-change, find-remove, find-this, change-IsList, remove-IsList,
}
use hcfs.LookupCount.Inv.{
  lookup, IsTable, IsQuiet, SameLocks, with_head, stored-find, stored-IsTable, stored-SameLocks,
  with_lock-ok, after_increase, increase_node-ok, list_increased-IsList, list_increased-find,
}

-- The table `u` is `t` with the node of `ino` being `new`, sound, and with the locks as they were.
abbrev pub Sets : LookupTable → ℕ → Option LookupNode → LookupTable → Type 0
Sets t ino new u =
    ((j : ℕ) → lookup u j ≡ (if ino == j then new else lookup t j)) × IsTable u × SameLocks t u

same_find :
    (ino j : ℕ) (ns : List LookupNode)
    → find_node ino ns ≡ none
    → find_node j ns ≡ (if ino == j then none else find_node j ns)
same_find ino j ns absent = elim (Bool-cases (ino == j)) [
  | inl e ↦ let j_eq : ino ≡ j = (==_iff ino j).0 e in rw e (rw j_eq at absent)
  | inr e ↦ rw e
]

module _ (c : Calls) (quiet : IsQuiet c) (t : LookupTable) (sound : IsTable t) (ino : ℕ)
    (unlocked : (t (index_of ino)).entry_sem ≡ 1) where
  index_same : (j : ℕ) → (ino == j) ≡ true → index_of ino ≡ index_of j
  index_same j e = ap index_of ((==_iff ino j).0 e)

  with_head-Sets :
      (ns : List LookupNode) (new : Option LookupNode)
      → IsList (index_of ino) ns
      → ((j : ℕ) → find_node j ns ≡ (if ino == j then new else find_node j (t (index_of ino)).head))
      → Sets t ino new (with_head t (index_of ino) ns)
  with_head-Sets ns new l f = (
    λ j. stored-find t (index_of ino) (index_of j) ino j _ new (index_same j) (f j),
    stored-IsTable t (index_of ino) _ sound l,
    stored-SameLocks t (index_of ino) _ (sym unlocked),
  )

  -- With calls that succeed, on a sound table whose list for the inode is not locked,
  -- `lookup_increase` returns the new count of the inode: the amount more than before, or the amount
  -- where it was not in the table. Its node then has this count, every other inode keeps its node,
  -- the table stays sound and the lock is released.
  pub lookup_increase-Sets :
      (amount : ℤ) (d_type : ℕ)
      → (u : LookupTable) × (lookup_increase c t ino amount d_type
          ≡ some (ok (after_increase (lookup t ino) ino amount d_type).lookup_count, u))
        × Sets t ino (some (after_increase (lookup t ino) ino amount d_type)) u
  unfolding lookup_increase
  lookup_increase-Sets amount d_type = (
    _,
    with_lock-ok c (index_of ino) t
          (λ x. increase_node (find_node ino x.head) c t ino amount d_type x) quiet.waits unlocked
        ∙ increase_node-ok c quiet t ino (lookup t ino) amount d_type _,
    with_head-Sets _ _
        (list_increased-IsList (index_of ino) ino amount d_type (lookup t ino) _ refl refl
          (sound (index_of ino)))
        (λ j. list_increased-find ino j amount d_type (lookup t ino) _ refl),
  )

  abbrev left_node : LookupNode → Option LookupNode
  left_node m = if is_zero_ℤ m.lookup_count then none else some m

  abbrev left_list : LookupNode → List LookupNode
  left_list m =
      if is_zero_ℤ m.lookup_count
      then remove_node ino (t (index_of ino)).head
      else change_node ino m (t (index_of ino)).head

  left_list-Sets :
      (n m : LookupNode)
      → lookup t ino ≡ some n
      → m.this_inode ≡ ino
      → Sets t ino (left_node m) (with_head t (index_of ino) (left_list m))
  left_list-Sets n m f e = elim (Bool-cases (is_zero_ℤ m.lookup_count)) [
    | inl zero_left ↦ rw zero_left (
        with_head-Sets _ none (remove-IsList (index_of ino) ino _ (sound (index_of ino)))
          (λ j. find-remove (index_of ino) ino j _ (sound (index_of ino))))
    | inr some_left ↦ rw some_left (
        with_head-Sets _ (some m)
          (change-IsList (index_of ino) ino n m _ (sound (index_of ino)) f e)
          (λ j. find-change ino j n m _ f e))
  ]

  decrease-found :
      (n : LookupNode) (amount : ℤ) (o : Option LookupNode)
      → o ≡ some n
      → decrease_node o c t ino amount (record { entry_sem = 0; head = (t (index_of ino)).head })
        ≡ some (
          ok ((decreased n amount).lookup_count, n.to_delete, n.d_type),
          with_head t (index_of ino) (left_list (decreased n amount)),
        )
  unfolding decrease_node finish_post
  decrease-found n amount o e = rw (e, quiet.posts)

  -- With calls that succeed, on a sound table whose list for the inode is not locked,
  -- `lookup_decrease` of an inode in the table returns its new count, the amount less than before
  -- and not below zero, with its mark for deletion and its type. The node leaves the table when the
  -- count is zero, and has the new count otherwise; every other inode keeps its node, the table
  -- stays sound and the lock is released.
  pub lookup_decrease-Sets :
      (n : LookupNode) (amount : ℤ)
      → lookup t ino ≡ some n
      → (u : LookupTable) × (lookup_decrease c t ino amount
          ≡ some (ok ((decreased n amount).lookup_count, n.to_delete, n.d_type), u))
        × Sets t ino
            (if is_zero_ℤ (decreased n amount).lookup_count
              then none
              else some (decreased n amount))
            u
  unfolding lookup_decrease
  lookup_decrease-Sets n amount f = (
    _,
    with_lock-ok c (index_of ino) t (λ x. decrease_node (find_node ino x.head) c t ino amount x)
          quiet.waits unlocked
        ∙ decrease-found n amount (lookup t ino) f,
    left_list-Sets n (decreased n amount) f (find-this ino n _ f),
  )

  mark-found :
      (n : LookupNode) (o : Option LookupNode)
      → o ≡ some n
      → mark_node o c t ino (record { entry_sem = 0; head = (t (index_of ino)).head })
        ≡ some (
          ok tt,
          with_head t
              (index_of ino)
              (change_node ino (record n { to_delete = true }) (t (index_of ino)).head),
        )
  unfolding mark_node finish_post
  mark-found n o e = rw (e, quiet.posts)

  -- With calls that succeed, on a sound table whose list for the inode is not locked,
  -- `lookup_markdelete` of an inode in the table marks its node for deletion, keeps its count, and
  -- keeps every other node; the table stays sound and the lock is released.
  pub lookup_markdelete-Sets :
      (n : LookupNode)
      → lookup t ino ≡ some n
      → (u : LookupTable) × (lookup_markdelete c t ino ≡ some (ok tt, u))
        × Sets t ino (some (record n { to_delete = true })) u
  unfolding lookup_markdelete
  lookup_markdelete-Sets n f = (
    _,
    with_lock-ok c (index_of ino) t (λ x. mark_node (find_node ino x.head) c t ino x) quiet.waits
          unlocked
        ∙ mark-found n (lookup t ino) f,
    with_head-Sets _ _
        (change-IsList (index_of ino) ino n _ _ (sound (index_of ino)) f (find-this ino n _ f))
        (λ j. find-change ino j n _ _ f (find-this ino n _ f)),
  )

  decrease-missing :
      (amount : ℤ) (o : Option LookupNode)
      → o ≡ none
      → decrease_node o c t ino amount (record { entry_sem = 0; head = (t (index_of ino)).head })
        ≡ some (err einval, with_head t (index_of ino) (t (index_of ino)).head)
  unfolding decrease_node ignore_post
  decrease-missing amount o e = rw (e, quiet.posts)

  mark-missing :
      (o : Option LookupNode)
      → o ≡ none
      → mark_node o c t ino (record { entry_sem = 0; head = (t (index_of ino)).head })
        ≡ some (err einval, with_head t (index_of ino) (t (index_of ino)).head)
  unfolding mark_node ignore_post
  mark-missing o e = rw (e, quiet.posts)

  -- With calls that succeed, on a sound table whose list for the inode is not locked,
  -- `lookup_decrease` and `lookup_markdelete` of an inode that is not in the table return EINVAL,
  -- keep every node, and release the lock.
  pub lookup_missing-Sets :
      (amount : ℤ)
      → lookup t ino ≡ none
      → (u : LookupTable) × (lookup_decrease c t ino amount ≡ some (err einval, u))
        × (lookup_markdelete c t ino ≡ some (err einval, u))
        × Sets t ino none u
  unfolding lookup_decrease lookup_markdelete
  lookup_missing-Sets amount absent = (
    _,
    with_lock-ok c (index_of ino) t (λ x. decrease_node (find_node ino x.head) c t ino amount x)
          quiet.waits unlocked
        ∙ decrease-missing amount (lookup t ino) absent,
    with_lock-ok c (index_of ino) t (λ x. mark_node (find_node ino x.head) c t ino x) quiet.waits
          unlocked
        ∙ mark-missing (lookup t ino) absent,
    with_head-Sets _ none (sound (index_of ino))
        (λ j. same_find ino j (t (index_of ino)).head absent),
  )
