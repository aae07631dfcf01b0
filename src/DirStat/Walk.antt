-- ===== src/DirStat/Walk.antt =====
-- The walk to the root.
use hcfs.Pages.Failure.{Consumed-later, HasFailed, HasFailed-after, HasFailed-next}
use hcfs.Base.{
  ℕ, zero, suc, ◌≤◌, ◌≡◌, ◌≢◌, ◌∙◌, inl, inr, refl, sym, ap, subst, List, [], ◌∷◌, Errno, einval,
  Bool-cases, true, false, arith, length, has, ◌==◌, ==_iff, if◌then◌else◌,
}
use hcfs.Base.Tables.{update}
use hcfs.Pages.File.{Outcome, done, failed, next_outcome}
use hcfs.DirStat.{
  DirStatFiles, DirStats, M, Run, add_stats, err, later, no_return, ok, read_parent, read_stats,
  system_call, outcome, update_dirstat_parent, update_path, write_stats, ◌>>=◌,
}

-- The inodes from `ino` along the primary parents to the root, whose parent is 0.
abbrev pub IsLine : (ℕ → ℕ) → ℕ → List ℕ → Type 0
IsLine parents ino [] = ino ≡ 0
IsLine parents ino (x ∷ xs) = (ino ≡ x) × (x ≢ 0) × IsLine parents (parents x) xs

line_unique :
    (parents : ℕ → ℕ) (ino : ℕ) (xs ys : List ℕ)
    → IsLine parents ino xs
    → IsLine parents ino ys
    → xs ≡ ys
line_unique parents ino [] [] a b = refl
line_unique parents ino [] (y ∷ ys) a b = absurd (b.1 (sym b.0 ∙ a))
line_unique parents ino (x ∷ xs) [] a b = absurd (a.1 (sym a.0 ∙ b))
line_unique parents ino (x ∷ xs) (y ∷ ys) a b =
    let e : x ≡ y = sym a.0 ∙ b.0 in
    ground (
      arith,
      line_unique parents (parents x) xs ys a.2
          (subst (λ z. IsLine parents (parents z) ys) (sym e) b.2),
      e,
    )

-- The rest of a line from an inode on it.
rest-IsLine :
    (parents : ℕ → ℕ) (ino x : ℕ) (xs : List ℕ)
    → IsLine parents ino xs
    → has x xs ≡ true
    → (ys : List ℕ) × IsLine parents x ys × (length ys ≤ length xs)
rest-IsLine parents ino x [] l h = absurd (ground arith)
rest-IsLine parents ino x (y ∷ ys) l h = elim (Bool-cases (y == x)) [
  | inl e ↦ (y ∷ ys, (sym ((==_iff y x).0 e), l.1, l.2), omega arith)
  | inr ne ↦
      let (zs, k, le) = rest-IsLine parents (parents y) x ys l.2 (ground arith) in
      (zs, k, omega arith)
]

-- No inode is on its own line twice.
line_apart :
    (parents : ℕ → ℕ) (x : ℕ) (xs : List ℕ)
    → x ≢ 0
    → IsLine parents (parents x) xs
    → has x xs ≡ false
line_apart parents x xs ne l = elim (Bool-cases (has x xs)) [
  | inl h ↦
      let (ys, k, le) = rest-IsLine parents (parents x) x xs l h in
      absurd
        (omega (arith, ap (length {A = ℕ}) (line_unique parents x ys (x ∷ xs) k (refl, ne, l))))
  | inr h ↦ h
]

-- `Q` of the state in which a run returns, `E` of the one that an error leaves. It has returned.
abbrev pub Ends :
    {A : Type 0} → (A → DirStatFiles → Type 0) → (DirStatFiles → Type 0) → Run A → Type 0
Ends Q E (ok a s) = Q a s
Ends Q E (err e s) = E s
Ends Q E no_return = ⊥

Ends-map :
    {A : Type 0} (Q R : A → DirStatFiles → Type 0) (E F : DirStatFiles → Type 0) (r : Run A)
    → ((a : A) (s : DirStatFiles) → Q a s → R a s)
    → ((s : DirStatFiles) → E s → F s)
    → Ends Q E r
    → Ends R F r
Ends-map Q R E F (ok a s) f g h = f a s h
Ends-map Q R E F (err e s) f g h = g s h
Ends-map Q R E F no_return f g h = h

module _ {A C : Type 0} (Q : A → DirStatFiles → Type 0) (E : DirStatFiles → Type 0) where
  by_outcome :
      (o : Outcome) (s : DirStatFiles) (g : DirStatFiles → C) (change : DirStatFiles → DirStatFiles)
      (k : C → M A)
      → Ends Q E (k (g s) (change s))
      → ((e : Errno) → o ≡ failed e → E s)
      → Ends Q E (((outcome o >>= λ _ t. ok (g t) (change t)) >>= k) s)
  unfolding outcome
  by_outcome done s g change k h f = h
  by_outcome (failed e) s g change k h f = f e refl

-- The statistics of the inodes of a list are changed, and nothing else.
pub record Added (inodes : List ℕ) (newstat : DirStats) (s s' : DirStatFiles) : Type 0 where
  pub changed :
      (j : ℕ) → s'.stats j ≡ (if has j inodes then add_stats (s.stats j) newstat else s.stats j)
  pub same_parents : s'.parents ≡ s.parents
  pub same_lock : s'.locked ≡ s.locked

-- A call has failed, and the lock is as it was.
abbrev pub Stopped : DirStatFiles → DirStatFiles → Type 0
Stopped s s' = HasFailed s.outcomes s'.outcomes × (s'.locked ≡ s.locked)

earlier :
    (s : DirStatFiles) (os : List Outcome)
    → HasFailed (later s).outcomes os
    → HasFailed s.outcomes os
earlier s os = HasFailed-after (Consumed-later s.outcomes)

abbrev with_change : ℕ → DirStats → DirStatFiles → DirStatFiles
with_change x d s = record (later (later (later s))) {
  stats = update s.stats x (add_stats (s.stats x) d);
}

add_one :
    (x : ℕ) (xs : List ℕ) (d : DirStats) (s t : DirStatFiles)
    → has x xs ≡ false
    → Added xs d (with_change x d s) t
    → Added (x ∷ xs) d s t
add_one x xs d s t apart a = record {
  changed = λ j. a.changed j ∙ elim (Bool-cases (x == j)) [
    | inl e ↦
        (let same : x ≡ j = (==_iff x j).0 e in
          let off : has j xs ≡ false = subst (λ y. has y xs ≡ false) same apart in
          ground (arith, off, ap s.stats same))
    | inr ne ↦ ground arith
  ];
  same_parents = a.same_parents;
  same_lock = a.same_lock;
}

update_path-Added :
    (xs : List ℕ) (fuel ino : ℕ) (d : DirStats) (s : DirStatFiles)
    → IsLine s.parents ino xs
    → length xs ≤ fuel
    → Ends (λ _ t. Added xs d s t) (Stopped s) (update_path fuel ino d s)
unfolding update_path read_stats write_stats read_parent system_call
update_path-Added [] zero ino d s line enough =
    rw line (record { changed = λ j. refl; same_parents = refl; same_lock = refl })
update_path-Added [] (suc fuel) ino d s line enough =
    rw line (record { changed = λ j. refl; same_parents = refl; same_lock = refl })
update_path-Added (x ∷ xs) zero ino d s line enough = absurd (omega arith)
update_path-Added (x ∷ xs) (suc fuel) ino d s line enough =
    subst (λ y. Ends (λ _ t. Added (x ∷ xs) d s t) (Stopped s) (update_path (suc fuel) y d s))
      (sym line.0)
      (let there : (x == 0) ≡ false = ground (arith, line.1) in
        rw there (
          by_outcome (λ _ t. Added (x ∷ xs) d s t) (Stopped s) (next_outcome s.outcomes) (later s)
            (λ t. t.stats x) (λ t. t) _
            (by_outcome (λ _ t. Added (x ∷ xs) d s t) (Stopped s) (next_outcome (later s).outcomes)
              (later (later s)) (λ t. tt {0})
              (λ t. record t { stats = update t.stats x (add_stats (s.stats x) d) }) _
              (by_outcome (λ _ t. Added (x ∷ xs) d s t) (Stopped s)
                (next_outcome (later (later s)).outcomes) (with_change x d s) (λ t. t.parents x)
                (λ t. t) _
                (Ends-map _ _ _ _ (update_path fuel (s.parents x) d (with_change x d s))
                  (λ _ t a. add_one x xs d s t (line_apart s.parents x xs line.1 line.2) a)
                  (λ t r.
                    (earlier s _ (earlier (later s) _ (earlier (later (later s)) _ r.0)), r.1))
                  (update_path-Added xs fuel (s.parents x) d (with_change x d s) line.2
                    (omega arith)))
                (λ e f. (earlier s _ (earlier (later s) _ (HasFailed-next _ e f)), refl)))
              (λ e f. (earlier s _ (HasFailed-next _ e f), refl)))
            (λ e f. (HasFailed-next _ e f, refl))))

-- `update_dirstat_parent`, with the lock taken, from an inode whose line of primary parents ends at the
-- root, and with at least as much fuel as the line is long, returns: it adds the change to the
-- statistics of exactly the inodes of this line, once each, and leaves the parents unchanged, or it
-- stops because a call failed. The lock is unchanged in both cases.
pub update_dirstat_parent-Added :
    (xs : List ℕ) (fuel ino : ℕ) (d : DirStats) (s : DirStatFiles)
    → s.locked ≡ true
    → ino ≢ 0
    → IsLine s.parents ino xs
    → length xs ≤ fuel
    → Ends (λ _ t. Added xs d s t) (Stopped s) (update_dirstat_parent fuel ino d s)
unfolding update_dirstat_parent
update_dirstat_parent-Added xs fuel ino d s locked there line enough =
    let e : (ino == 0) ≡ false = ground (arith, there) in
    rw e (
      subst
        (λ b.
          Ends (λ _ t. Added xs d s t) (Stopped s)
            (if b then update_path fuel ino d s else err einval s))
        (sym locked) (update_path-Added xs fuel ino d s line enough))
