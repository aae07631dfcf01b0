-- ===== src/LookupCount.antt =====
-- The lookup counts of inodes (src/HCFS/lookup_count.c, lookup_count_types.h): a hash table of
-- lists, one lock for each list.
pub mod Table
pub mod Inv
pub mod Ops
pub mod Destroy
pub mod Init
mod Tests
use hcfs.Base.{
  ℕ, ◌+◌, ◌-◌, ◌%◌, suc, Bool, true, false, List, [], ◌∷◌, Option, none, some, Errno, enomem,
  einval, other, Result, ok, err, ◌==◌, if◌then◌else◌,
}
use hcfs.Base.Int.{ℤ, pos, ◌+ℤ◌, ◌-ℤ◌, ltb_ℤ, is_zero_ℤ, int32}
use hcfs.Base.Tables.{update}

abbrev pub num_lookup_entries : ℕ
num_lookup_entries = 65536

-- `LOOKUP_NODE_TYPE`; `next` is the list's.
pub record LookupNode : Type 0 where
  pub this_inode : ℕ
  pub lookup_count : ℤ
  pub to_delete : Bool
  pub d_type : ℕ

pub record LookupHead : Type 0 where
  pub entry_sem : ℕ
  pub head : List LookupNode

abbrev pub LookupTable : Type 0
LookupTable = ℕ → LookupHead

-- What the calls of one operation come to: the errors of `sem_wait` and `sem_post`, and whether
-- `malloc` returns memory.
pub record Calls : Type 0 where
  pub wait : Option ℕ
  pub post : Option ℕ
  pub has_memory : Bool

-- An operation returns a value or an error, with the table it leaves, or waits for a lock that is
-- taken (`none`).
abbrev pub Run : Type 0 → Type 0
Run A = Option (Result A × LookupTable)

abbrev pub index_of : ℕ → ℕ
index_of ino = ino % num_lookup_entries

-- `sem_wait`, then `body` on the list with its result and new list, or an error behind which the
-- lock is released whatever `sem_post` returns, then `sem_post`.
unfoldable pub finish_post :
    {A : Type 0} → Option ℕ → Result A → ℕ → LookupHead → LookupTable → Run A
finish_post none r index h t = some (r, update t index (record h { entry_sem = h.entry_sem + 1 }))
finish_post (some e) r index h t = some (err (other e), update t index h)

-- Where the error of `sem_post` is not looked at.
unfoldable pub ignore_post :
    {A : Type 0} → Option ℕ → Result A → ℕ → LookupHead → LookupTable → Run A
ignore_post none r index h t = some (r, update t index (record h { entry_sem = h.entry_sem + 1 }))
ignore_post (some e) r index h t = some (r, update t index h)

unfoldable pub with_lock : {A : Type 0} → Calls → ℕ → LookupTable → (LookupHead → Run A) → Run A
with_lock c index t body = elim c.wait [
  | some e ↦ some (err (other e), t)
  | none ↦
      if (t index).entry_sem == 0
      then none
      else body (record (t index) { entry_sem = (t index).entry_sem - 1 })
]

-- The loop that looks for the inode: the first node with its number.
abbrev pub find_node : ℕ → List LookupNode → Option LookupNode
find_node ino [] = none
find_node ino (n ∷ ns) = if n.this_inode == ino then some n else find_node ino ns

abbrev pub change_node : ℕ → LookupNode → List LookupNode → List LookupNode
change_node ino m [] = []
change_node ino m (n ∷ ns) = if n.this_inode == ino then m ∷ ns else n ∷ change_node ino m ns

abbrev pub remove_node : ℕ → List LookupNode → List LookupNode
remove_node ino [] = []
remove_node ino (n ∷ ns) = if n.this_inode == ino then ns else n ∷ remove_node ino ns

abbrev pub new_node : ℕ → ℤ → ℕ → LookupNode
new_node ino amount d_type = record {
  this_inode = ino;
  lookup_count = amount;
  to_delete = false;
  d_type = d_type;
}

abbrev pub increased : LookupNode → ℤ → LookupNode
increased n amount = record n { lookup_count = int32 (n.lookup_count +ℤ amount) }

-- An underflow is reset to 0.
abbrev pub decreased : LookupNode → ℤ → LookupNode
decreased n amount =
    let c = int32 (n.lookup_count -ℤ amount) in
    record n { lookup_count = if ltb_ℤ c (pos 0) then pos 0 else c }

unfoldable pub increase_node :
    Option LookupNode → Calls → LookupTable → (ino : ℕ) → ℤ → ℕ → LookupHead → Run ℤ
unfolding finish_post ignore_post
increase_node (some n) c t ino amount d_type h =
    let m = increased n amount in
    finish_post c.post (ok m.lookup_count) (index_of ino)
      (record h { head = change_node ino m h.head }) t
increase_node none c t ino amount d_type h =
    if c.has_memory
    then finish_post c.post (ok amount) (index_of ino)
        (record h { head = new_node ino amount d_type ∷ h.head }) t
    else ignore_post c.post (err enomem) (index_of ino) h t

unfoldable pub lookup_increase : Calls → LookupTable → (ino : ℕ) → ℤ → ℕ → Run ℤ
unfolding with_lock increase_node
lookup_increase c t ino amount d_type =
    with_lock c (index_of ino) t λ h. increase_node (find_node ino h.head) c t ino amount d_type h

-- The result: the count, `*need_delete` and `*d_type`.
unfoldable pub decrease_node :
    Option LookupNode → Calls → LookupTable → (ino : ℕ) → ℤ → LookupHead → Run (ℤ × Bool × ℕ)
unfolding finish_post ignore_post
decrease_node (some n) c t ino amount h =
    let m = decreased n amount in
    finish_post c.post (ok (m.lookup_count, n.to_delete, n.d_type)) (index_of ino)
      (record h {
        head =
            if is_zero_ℤ m.lookup_count then remove_node ino h.head else change_node ino m h.head;
      })
      t
decrease_node none c t ino amount h = ignore_post c.post (err einval) (index_of ino) h t

unfoldable pub lookup_decrease : Calls → LookupTable → (ino : ℕ) → ℤ → Run (ℤ × Bool × ℕ)
unfolding with_lock decrease_node
lookup_decrease c t ino amount =
    with_lock c (index_of ino) t λ h. decrease_node (find_node ino h.head) c t ino amount h

unfoldable pub mark_node : Option LookupNode → Calls → LookupTable → ℕ → LookupHead → Run (Unit {0})
unfolding finish_post ignore_post
mark_node (some n) c t ino h =
    finish_post c.post (ok tt) (index_of ino)
      (record h { head = change_node ino (record n { to_delete = true }) h.head }) t
mark_node none c t ino h = ignore_post c.post (err einval) (index_of ino) h t

unfoldable pub lookup_markdelete : Calls → LookupTable → ℕ → Run (Unit {0})
unfolding with_lock mark_node
lookup_markdelete c t ino =
    with_lock c (index_of ino) t λ h. mark_node (find_node ino h.head) c t ino h
