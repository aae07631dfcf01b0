-- ===== src/SuperBlock/Links.antt =====
-- How the links of all entries change where two entries are written: `ino`, in memory, and its
-- neighbour `last`.
use hcfs.Base.{ℕ, ◌≡◌, refl, true, false, ◌==◌, if◌then◌else◌, arith, inl, inr, ◌⊎◌}
use hcfs.Base.Tables.{update}
use hcfs.Queue.{relink}
use hcfs.SuperBlock.State.{
  SuperBlockEntry, Status, no_ll, is_dirty, to_be_deleted, to_be_reclaimed, reclaimed,
}
use hcfs.SuperBlock.Invariant.{dirty_links, delete_links, pin_links}
use hcfs.SuperBlock.StatusQueue.Dequeue.{status_eq}

pub is_dirty_of_eq : (a : Status) → status_eq a is_dirty ≡ true → a ≡ is_dirty
is_dirty_of_eq is_dirty h = refl
is_dirty_of_eq no_ll h = cc
is_dirty_of_eq to_be_deleted h = cc
is_dirty_of_eq to_be_reclaimed h = cc
is_dirty_of_eq reclaimed h = cc

abbrev pub before : (ℕ → SuperBlockEntry) → SuperBlockEntry → ℕ → ℕ → SuperBlockEntry
before f e ino i = if ino == i then e else f i

module _ (f : ℕ → SuperBlockEntry) (e e' : SuperBlockEntry) (ino last : ℕ) where
  abbrev pub after : ℕ → SuperBlockEntry
  after i =
      if ino == i then e' else if last == i then record (f last) { util_ll_next = ino } else f i

  pub dirty_after :
      (i : ℕ)
      → (ino == i) ≡ false
      → dirty_links (after i) ≡ (
          if i == last
          then record (dirty_links (before f e ino i)) { next = ino }
          else dirty_links (before f e ino i))
  dirty_after i ne = ground arith

  pub pin_after :
      (i : ℕ) → pin_links e' ≡ pin_links e → pin_links (after i) ≡ pin_links (before f e ino i)
  pin_after i same = ground arith

  module _ (out : e.status ≡ no_ll) (in_dirty : e'.status ≡ is_dirty)
      (last_dirty : (f last).status ≡ is_dirty) where
    pub delete_after :
        (i : ℕ)
        → (delete_links (before f e ino i)).member ≡ true
        → delete_links (after i) ≡ delete_links (before f e ino i)
    delete_after i m = ground arith

    pub delete_before :
        (i : ℕ)
        → (delete_links (after i)).member ≡ true
        → (delete_links (before f e ino i)).member ≡ true
    delete_before i m = ground arith

module _ (f : ℕ → SuperBlockEntry) (e e' : SuperBlockEntry) (ino : ℕ) (out : e.status ≡ no_ll)
    (in_dirty : e'.status ≡ is_dirty) where
  pub delete_alone :
      (i : ℕ)
      → (delete_links (if ino == i then e else f i)).member ≡ true
      → delete_links (if ino == i then e' else f i) ≡ delete_links (if ino == i then e else f i)
  delete_alone i m = ground arith

  pub delete_alone_back :
      (i : ℕ)
      → (delete_links (if ino == i then e' else f i)).member ≡ true
      → (delete_links (if ino == i then e else f i)).member ≡ true
  delete_alone_back i m = ground arith

-- An entry leaves a list: its neighbours `pv` and `nx`, where there are some, are written.
module _ (f : ℕ → SuperBlockEntry) (pv nx : ℕ) where
  abbrev pub joined_next : ℕ → SuperBlockEntry
  joined_next = if nx == 0 then f else update f nx (record (f nx) { util_ll_prev = pv })

  abbrev pub joined_both : ℕ → SuperBlockEntry
  joined_both =
      if pv == 0 then joined_next else update joined_next pv (record (f pv) { util_ll_next = nx })

module _ (f : ℕ → SuperBlockEntry) (e e' : SuperBlockEntry) (ino pv nx : ℕ) where
  abbrev pub without : ℕ → SuperBlockEntry
  without i = if ino == i then e' else joined_both f pv nx i

  pub links_without :
      (i : ℕ)
      → (ino == i) ≡ false
      → (i == 0) ≡ false
      → (nx ≡ 0) ⊎ ((pv == nx) ≡ false)
      → dirty_links (without i) ≡ relink (λ j. dirty_links (before f e ino j)) pv nx i
  links_without i ne nz (inl last) = ground arith
  links_without i ne nz (inr apart) = ground arith

  pub member_without :
      (i : ℕ)
      → (ino == i) ≡ false
      → (dirty_links (without i)).member ≡ (dirty_links (before f e ino i)).member
  member_without i ne = ground arith

  pub pin_without :
      (i : ℕ) → pin_links e' ≡ pin_links e → pin_links (without i) ≡ pin_links (before f e ino i)
  pin_without i same = ground arith

  module _ (dirty : e.status ≡ is_dirty) (out : e'.status ≡ no_ll)
      (pv_dirty : (pv ≡ 0) ⊎ ((f pv).status ≡ is_dirty))
      (nx_dirty : (nx ≡ 0) ⊎ ((f nx).status ≡ is_dirty)) where
    pub delete_without :
        (i : ℕ)
        → (delete_links (before f e ino i)).member ≡ true
        → delete_links (without i) ≡ delete_links (before f e ino i)
    delete_without i m = ground arith

    pub delete_not_without :
        (i : ℕ)
        → (delete_links (without i)).member ≡ true
        → (delete_links (before f e ino i)).member ≡ true
    delete_not_without i m = ground arith
