-- ===== src/SuperBlock/Io.antt =====
-- Operations on the super block as a state and error monad, and its reads and writes:
-- `read_super_block_entry`, `write_super_block_entry` and `write_super_block_head`.
use hcfs.Base.{ℕ, List, [], ◌∷◌, Errno, eio, einval, other, ◌==◌, ltb, if◌then◌else◌}
use hcfs.Base.Tables.{update}
use hcfs.SuperBlock.State.{
  SuperBlock, SuperBlockEntry, SuperBlockHead, Outcome, done, failed, short,
}

-- What a call comes to: it returns a value or an error code, with the super block it leaves (an error
-- keeps what was changed before it), or it does not return: a loop that does not end, a lock that
-- is never released, or a null pointer that is followed.
pub data Run (A : Type 0) : Type 0 where
  ok : A → SuperBlock → Run A
  err : Errno → SuperBlock → Run A
  no_return : Run A

abbrev pub M : Type 0 → Type 0
M A = SuperBlock → Run A

abbrev pub pure : {A : Type 0} → A → M A
pure a s = ok a s

abbrev pub hang : {A : Type 0} → M A
hang s = no_return

abbrev pub throw : {A : Type 0} → Errno → M A
throw e s = err e s

infixl 5 ◌>>=◌ ◌>>◌
abbrev pub ◌>>=◌ : {A B : Type 0} → M A → (A → M B) → M B
◌>>=◌ m f s = elim (m s) [ ok a s' ↦ f a s' | err e s' ↦ err e s' | no_return ↦ no_return ]

abbrev pub ◌>>◌ : {A B : Type 0} → M A → M B → M B
m >> k = m >>= λ _. k

abbrev pub get : M SuperBlock
get s = ok s s

abbrev pub modify : (SuperBlock → SuperBlock) → M (Unit {0})
modify f s = ok tt (f s)

abbrev pub modify_head : (SuperBlockHead → SuperBlockHead) → M (Unit {0})
modify_head f = modify (λ s. record s { head = f s.head })

abbrev pub modify_entry : (SuperBlockEntry → SuperBlockEntry) → M (Unit {0})
modify_entry f = modify (λ s. record s { this_entry = f s.this_entry })

-- The return value is ignored; what was changed is not.
abbrev pub ignore_error : M (Unit {0}) → M (Unit {0})
ignore_error m s = elim (m s) [ ok a s' ↦ ok tt s' | err e s' ↦ ok tt s' | no_return ↦ no_return ]

abbrev pub next_outcome : List Outcome → Outcome
next_outcome [] = done
next_outcome (o ∷ os) = o

abbrev pub later_outcomes : List Outcome → List Outcome
later_outcomes [] = []
later_outcomes (o ∷ os) = os

-- One `pread` or `pwrite`: a short one is reported as `EIO`.
unfoldable pub system_call : M (Unit {0})
system_call s = elim (next_outcome s.outcomes) [
  | done ↦ ok tt (record s { outcomes = later_outcomes s.outcomes })
  | failed e ↦ err (other e) (record s { outcomes = later_outcomes s.outcomes })
  | short ↦ err eio (record s { outcomes = later_outcomes s.outcomes })
]

-- A read behind the end of the file is short. The callers' `*inode_ptr` is the result.
unfoldable pub read_super_block_entry : ℕ → M SuperBlockEntry
read_super_block_entry ino =
    if ino == 0
    then throw einval
    else do system_call; s ← get; if ltb s.num_entries ino then throw eio else pure (s.entries ino)

-- A write behind the end of the file extends it. For the number 0, C writes
-- over the head of the file; here it is an entry of its own.
unfoldable pub write_super_block_entry : ℕ → SuperBlockEntry → M (Unit {0})
write_super_block_entry ino entry = do
  system_call
  modify λ s. record s {
    entries = update s.entries ino entry;
    num_entries = if ltb s.num_entries ino then ino else s.num_entries;
  }

unfoldable pub write_super_block_head : M (Unit {0})
write_super_block_head = system_call >> modify (λ s. record s { disk_head = s.head })

-- A read into, and a write of, the entry that an operation works on.
unfoldable pub load_entry : ℕ → M (Unit {0})
load_entry ino = do entry ← read_super_block_entry ino; modify_entry (λ _. entry)

unfoldable pub store_entry : ℕ → M (Unit {0})
store_entry ino = do s ← get; write_super_block_entry ino s.this_entry
