-- ===== src/Queue/Changes.antt =====
-- The two changes of a queue: a new last entry, and an entry taken out.
use hcfs.Base.{
  ℕ, ◌≡◌, refl, ◌≢◌, true, false, List, [], ◌∷◌, ◌++◌, ◌==◌, if◌then◌else◌, has, erase, arith,
  has-append, has-erase_ne, Bool-cases, inl, inr, ==_iff, sym, ◌∙◌, ne_of_has,
}
use hcfs.Queue.{Links, Chain, IsQueue, head_or_zero, last_or, relink}
use hcfs.Queue.Chain.{Chain-frame, Chain-append, Chain-member, Chain-ne_zero}
use hcfs.Queue.Erase.{Chain-erase, Chain-erase_self, head-erase, last-erase}

last_or-append : (p x : ℕ) (xs : List ℕ) → last_or p (xs ++ (x ∷ [])) ≡ x
last_or-append p x [] = refl
last_or-append p x (y ∷ ys) = last_or-append y x ys

head-append :
    (l : ℕ → Links) (x first : ℕ) (xs : List ℕ)
    → Chain l 0 xs
    → first ≡ head_or_zero xs
    → (if first == 0 then x else first) ≡ head_or_zero (xs ++ (x ∷ []))
head-append l x first [] c e = rw e
head-append l x first (y ∷ ys) c e = ground (arith, c.0)

has-append_last : (x i : ℕ) (xs : List ℕ) → (x == i) ≡ true → has i (xs ++ (x ∷ [])) ≡ true
has-append_last x i xs e = ground (arith, has-append i xs (x ∷ []))

has-append_old : (x i : ℕ) (xs : List ℕ) → has i xs ≡ true → has i (xs ++ (x ∷ [])) ≡ true
has-append_old x i xs e = ground (arith, has-append i xs (x ∷ []))

module _ (l m : ℕ → Links) where
  -- An entry that is no member becomes the last one.
  pub IsQueue-append :
      (x first last first' last' : ℕ) (xs : List ℕ)
      → IsQueue l first last xs
      → x ≢ 0
      → (l x).member ≡ false
      → ((i : ℕ) → (x == i) ≡ false → (m i).member ≡ (l i).member)
      → ((i : ℕ)
          → has i xs ≡ true
          → (x == i) ≡ false
          → m i ≡ (if i == last then record (l i) { next = x } else l i))
      → m x ≡ record { member = true; prev = last; next = 0 }
      → first' ≡ (if first == 0 then x else first)
      → last' ≡ x
      → IsQueue m first' last' (xs ++ (x ∷ []))
  IsQueue-append x first last first' last' xs q nz out others at at_x ef el = record {
    chain =
        Chain-append l m 0 x last xs q.chain nz absent q.last_eq
          (λ i h. at i h (ne_of_has i x xs h absent)) at_x;
    first_eq = ef ∙ head-append l x first xs q.chain q.first_eq;
    last_eq = el ∙ sym (last_or-append 0 x xs);
    complete = λ i h. elim (Bool-cases (x == i)) [
      | inl e ↦ has-append_last x i xs e
      | inr e ↦ has-append_old x i xs (q.complete i (sym (others i e) ∙ h))
    ];
  }
    where
      absent : has x xs ≡ false
      absent = elim (Bool-cases (has x xs)) [
        | inl h ↦ cc (Chain-member l 0 xs x q.chain h)
        | inr h ↦ h
      ]

  -- A member is taken out.
  pub IsQueue-erase :
      (x first last first' last' : ℕ) (xs : List ℕ)
      → IsQueue l first last xs
      → (l x).member ≡ true
      → ((i : ℕ) → (x == i) ≡ false → (m i).member ≡ (l i).member)
      → (m x).member ≡ false
      → ((i : ℕ)
          → has i (erase x xs) ≡ true
          → (x == i) ≡ false
          → m i ≡ relink l (l x).prev (l x).next i)
      → first' ≡ (if (l x).prev == 0 then (l x).next else first)
      → last' ≡ (if (l x).next == 0 then (l x).prev else last)
      → IsQueue m first' last' (erase x xs)
  IsQueue-erase x first last first' last' xs q inside others gone at ef el = record {
    chain =
        Chain-erase l m 0 x xs q.chain present (Chain-ne_zero l 0 xs q.chain)
          (λ i h. at i h (ne_of_has i x (erase x xs) h (Chain-erase_self l 0 x xs q.chain)));
    first_eq = rw (ef, head-erase l x xs q.chain present, q.first_eq);
    last_eq = rw (el, last-erase l 0 x xs q.chain present, q.last_eq);
    complete = λ i h. elim (Bool-cases (x == i)) [
      | inl e ↦ let x_eq : x ≡ i = (==_iff x i).0 e in cc (rw x_eq at gone)
      | inr e ↦ has-erase_ne x i xs e ∙ q.complete i (sym (others i e) ∙ h)
    ];
  }
    where
      present : has x xs ≡ true
      present = q.complete x inside

-- A queue depends on its members alone.
pub IsQueue-frame :
    (l m : ℕ → Links) (first last : ℕ) (xs : List ℕ)
    → IsQueue l first last xs
    → ((i : ℕ) → (l i).member ≡ true → m i ≡ l i)
    → ((i : ℕ) → (m i).member ≡ true → (l i).member ≡ true)
    → IsQueue m first last xs
IsQueue-frame l m first last xs q same back = record {
  chain = Chain-frame l m 0 xs q.chain (λ i h. same i (Chain-member l 0 xs i q.chain h));
  first_eq = q.first_eq;
  last_eq = q.last_eq;
  complete = λ i h. q.complete i (back i h);
}
