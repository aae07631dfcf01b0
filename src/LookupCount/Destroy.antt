-- ===== src/LookupCount/Destroy.antt =====
-- `lookup_destroy`: the loops over all lists and their nodes.
use hcfs.Base.{
  ℕ, ◌+◌, ◌-◌, ◌≤◌, zero, suc, ◌≡◌, refl, Bool, true, false, List, [], ◌∷◌, ◌++◌, Option, none,
  some, Result, ok, err, other, ◌==◌, ltb, leb, ◌&&◌, if◌then◌else◌, ◌∙◌, ap, sym, Bool-cases, inl,
  inr, arith,
}
use hcfs.Base.Tables.{update}
use hcfs.LookupCount.{LookupNode, LookupHead, LookupTable, num_lookup_entries}

-- The nodes whose inode is deleted, in order: `check` is `disk_checkdelete` returning 1.
abbrev pub to_be_removed : (ℕ → Bool) → List LookupNode → List LookupNode
to_be_removed check [] = []
to_be_removed check (n ∷ ns) =
    if check n.this_inode then n ∷ to_be_removed check ns else to_be_removed check ns

-- One list; `wait` and `post` are the errors of the calls on its lock. The result is an error or
-- none, the list's new head, and the nodes passed to `actual_delete_inode`.
unfoldable pub destroy_list :
    (wait post : Option ℕ)
    → (ℕ → Bool)
    → LookupHead
    → Option (Result (Unit {0}) × LookupHead × List LookupNode)
destroy_list (some e) post check h = some (err (other e), h, [])
destroy_list none (some e) check h =
    if h.entry_sem == 0
    then none
    else some (
      err (other e),
      record { entry_sem = h.entry_sem - 1; head = [] },
      to_be_removed check h.head,
    )
destroy_list none none check h =
    if h.entry_sem == 0
    then none
    else some
        (ok tt, record { entry_sem = h.entry_sem - 1 + 1; head = [] }, to_be_removed check h.head)

-- The result of the whole: an error stops it.
abbrev pub Run : Type 0
Run = Option (Result (Unit {0}) × LookupTable × List LookupNode)

abbrev pub with_removed : List LookupNode → Run → Run
with_removed ns none = none
with_removed ns (some (r, t, ms)) = some (r, t, ns ++ ms)

-- The lists from `count` on, `left` of them.
unfoldable pub destroy_from :
    (waits posts : ℕ → Option ℕ) → (ℕ → Bool) → (left count : ℕ) → LookupTable → Run
unfolding destroy_list
destroy_from waits posts check zero count t = some (ok tt, t, [])
destroy_from waits posts check (suc left) count t =
    elim (destroy_list (waits count) (posts count) check (t count)) [
      | none ↦ none
      | some (err e, h, ns) ↦ some (err e, update t count h, ns)
      | some (ok _, h, ns) ↦
          with_removed ns (destroy_from waits posts check left (count + 1) (update t count h))
    ]

unfoldable pub lookup_destroy : (waits posts : ℕ → Option ℕ) → (ℕ → Bool) → LookupTable → Run
unfolding destroy_from
lookup_destroy waits posts check t = destroy_from waits posts check num_lookup_entries 0 t

-- The nodes of `left` lists from `count` on.
abbrev pub nodes_from : (left count : ℕ) → LookupTable → List LookupNode
nodes_from zero count t = []
nodes_from (suc left) count t = (t count).head ++ nodes_from left (count + 1) t

removed-append :
    (check : ℕ → Bool) (xs ys : List LookupNode)
    → to_be_removed check (xs ++ ys) ≡ to_be_removed check xs ++ to_be_removed check ys
removed-append check [] ys = refl
removed-append check (x ∷ xs) ys = elim (Bool-cases (check x.this_inode)) [
  | inl e ↦ rw (e, removed-append check xs ys)
  | inr e ↦ rw (e, removed-append check xs ys)
]

-- Earlier lists do not count.
nodes_from-update :
    (left count k : ℕ) (t : LookupTable) (h : LookupHead)
    → k + 1 ≤ count
    → nodes_from left count (update t k h) ≡ nodes_from left count t
nodes_from-update zero count k t h e = refl
nodes_from-update (suc left) count k t h e =
    rw (apart, nodes_from-update left (count + 1) k t h (omega (arith, e)))
  where
    apart : (k == count) ≡ false
    apart = ground (arith, e)

-- `ms` are those of the nodes `ns`, in their order, whose inode passes `check`.
pub data Selected (check : ℕ → Bool) : List LookupNode → List LookupNode → Type 0 where
  nothing : Selected check [] []
  passed :
      {n : LookupNode} {ns ms : List LookupNode}
      → check n.this_inode ≡ true
      → Selected check ns ms
      → Selected check (n ∷ ns) (n ∷ ms)
  left_out :
      {n : LookupNode} {ns ms : List LookupNode}
      → check n.this_inode ≡ false
      → Selected check ns ms
      → Selected check (n ∷ ns) ms

to_be_removed-Selected :
    (check : ℕ → Bool) (ns : List LookupNode) → Selected check ns (to_be_removed check ns)
to_be_removed-Selected check [] = nothing
to_be_removed-Selected check (n ∷ ns) = elim (Bool-cases (check n.this_inode)) [
  | inl e ↦ rw e (passed e (to_be_removed-Selected check ns))
  | inr e ↦ rw e (left_out e (to_be_removed-Selected check ns))
]

abbrev emptied : LookupHead → LookupHead
emptied h = record { entry_sem = 1; head = [] }

-- The lists of `t` from `count` on, `left` of them, are empty in `u`; the others and the locks are
-- as they were.
abbrev pub Emptied : (left count : ℕ) → LookupTable → LookupTable → Type 0
Emptied left count t u =
    (i : ℕ)
    → ((u i).head ≡ (if leb count i && ltb i (count + left) then [] else (t i).head))
      × ((u i).entry_sem ≡ 1)

module _ (waits posts : ℕ → Option ℕ) (check : ℕ → Bool)
    (no_error : (i : ℕ) → (waits i ≡ none) × (posts i ≡ none)) where
  destroy_list-ok :
      (i : ℕ) (h : LookupHead)
      → h.entry_sem ≡ 1
      → destroy_list (waits i) (posts i) check h
        ≡ some (ok tt, emptied h, to_be_removed check h.head)
  unfolding destroy_list
  destroy_list-ok i h e = rw ((no_error i).0, (no_error i).1, e)

  abbrev IsDestroyed : (left count : ℕ) → LookupTable → Type 0
  IsDestroyed left count t =
      (u : LookupTable) × (destroy_from waits posts check left count t
        ≡ some (ok tt, u, to_be_removed check (nodes_from left count t)))
      × Emptied left count t u

  destroy_from-step :
      (left count : ℕ) (t : LookupTable)
      → ((i : ℕ) → (t i).entry_sem ≡ 1)
      → IsDestroyed left (count + 1) (update t count (emptied (t count)))
      → IsDestroyed (suc left) count t
  unfolding destroy_from
  destroy_from-step left count t free rest = (
    rest.0,
    rw (destroy_from, destroy_list-ok count (t count) (free count), rest.1)
        (ap (λ l. some (ok tt, rest.0, to_be_removed check (t count).head ++ to_be_removed check l))
            (nodes_from-update left (count + 1) count t (emptied (t count)) (omega arith))
          ∙ ap (λ l. some (ok tt, rest.0, l))
              (sym (removed-append check (t count).head (nodes_from left (count + 1) t)))),
    λ i. (ground (arith, (rest.2 i).0), (rest.2 i).1),
  )

  emptied_free :
      (count : ℕ) (t : LookupTable)
      → ((i : ℕ) → (t i).entry_sem ≡ 1)
      → (i : ℕ) → (update t count (emptied (t count)) i).entry_sem ≡ 1
  emptied_free count t free i = ground (arith, free i)

  destroy_from-empty :
      (left count : ℕ) (t : LookupTable)
      → ((i : ℕ) → (t i).entry_sem ≡ 1)
      → IsDestroyed left count t
  unfolding destroy_from
  destroy_from-empty zero count t free = (t, refl, λ i. (ground arith, free i))
  destroy_from-empty (suc left) count t free = destroy_from-step left count t free (
      destroy_from-empty left (count + 1) (update t count (emptied (t count)))
        (emptied_free count t free))

  -- With calls that succeed and no list locked, `lookup_destroy` returns 0, every one of the 65536
  -- lists is empty then and no lock is held, and the inodes that it has deleted are, in the order of
  -- the lists, those of the table's nodes for which `disk_checkdelete` returned 1, and no others.
  pub lookup_destroy-Emptied :
      (t : LookupTable)
      → ((i : ℕ) → (t i).entry_sem ≡ 1)
      → (u : LookupTable) × (removed : List LookupNode) × (lookup_destroy waits posts check t
          ≡ some (ok tt, u, removed))
        × Selected check (nodes_from num_lookup_entries 0 t) removed
        × Emptied num_lookup_entries 0 t u
  unfolding lookup_destroy
  lookup_destroy-Emptied t free =
      let (u, e, empty) = destroy_from-empty num_lookup_entries 0 t free in
      (
        u,
        to_be_removed check (nodes_from num_lookup_entries 0 t),
        e,
        to_be_removed-Selected check (nodes_from num_lookup_entries 0 t),
        empty,
      )
