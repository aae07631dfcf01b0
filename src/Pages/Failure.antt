-- ===== src/Pages/Failure.antt =====
-- What an operation took from the outcomes of the calls to come, and that a call has failed in it.
use hcfs.Base.{◌≡◌, ◌≢◌, ◌∙◌, refl, sym, ap, List, [], ◌∷◌, ◌++◌, Errno}
use hcfs.Pages.File.{Outcome, done, failed, later_outcomes, next_outcome}

-- The outcomes `os` without some at the front, which are those of the calls that were made.
pub record Consumed (os os' : List Outcome) : Type 0 where
  pub calls : List Outcome
  pub split : os ≡ calls ++ os'

-- The last call that was made has failed.
pub record HasFailed (os os' : List Outcome) : Type 0 where
  pub calls : List Outcome
  pub error : Errno
  pub split : os ≡ calls ++ failed error ∷ os'

pub Consumed-refl : (os : List Outcome) → Consumed os os
Consumed-refl os = record { calls = []; split = refl }

pub Consumed-later : (os : List Outcome) → Consumed os (later_outcomes os)
Consumed-later [] = record { calls = []; split = refl }
Consumed-later (o ∷ os) = record { calls = o ∷ []; split = refl }

pub append_calls : (xs ys zs : List Outcome) → (xs ++ ys) ++ zs ≡ xs ++ (ys ++ zs)
append_calls [] ys zs = refl
append_calls (x ∷ xs) ys zs = ap (λ l. x ∷ l) (append_calls xs ys zs)

pub Consumed-trans : {a b c : List Outcome} → Consumed a b → Consumed b c → Consumed a c
Consumed-trans {a} {b} {c} h k = record {
  calls = h.calls ++ k.calls;
  split = h.split ∙ ap (λ l. h.calls ++ l) k.split ∙ sym (append_calls h.calls k.calls c);
}

pub HasFailed-after : {a b c : List Outcome} → Consumed a b → HasFailed b c → HasFailed a c
HasFailed-after {a} {b} {c} h k = record {
  calls = h.calls ++ k.calls;
  error = k.error;
  split =
      h.split
      ∙ ap (λ l. h.calls ++ l) k.split
      ∙ sym (append_calls h.calls k.calls (failed k.error ∷ c));
}

pub Consumed-twice : (os : List Outcome) → Consumed os (later_outcomes (later_outcomes os))
Consumed-twice os = Consumed-trans (Consumed-later os) (Consumed-later (later_outcomes os))

pub Consumed-thrice :
    (os : List Outcome) → Consumed os (later_outcomes (later_outcomes (later_outcomes os)))
Consumed-thrice os =
    Consumed-trans (Consumed-twice os) (Consumed-later (later_outcomes (later_outcomes os)))

-- The next call.
pub HasFailed-next :
    (os : List Outcome) (e : Errno) → next_outcome os ≡ failed e → HasFailed os (later_outcomes os)
HasFailed-next [] e h = cc
HasFailed-next (done ∷ os) e h = cc
HasFailed-next (failed x ∷ os) e h = record { calls = []; error = x; split = refl }

-- Where no outcome is given every call succeeds.
nothing_left : (xs ys : List Outcome) → [] ≡ xs ++ ys → ys ≡ []
nothing_left [] ys e = sym e
nothing_left (x ∷ xs) ys e = cc

pub Consumed-nil : {os os' : List Outcome} → Consumed os os' → os ≡ [] → os' ≡ []
Consumed-nil {os} {os'} h q = nothing_left h.calls os' (sym q ∙ h.split)

no_failure : (xs ys : List Outcome) (e : Errno) → [] ≢ xs ++ failed e ∷ ys
no_failure [] ys e h = cc
no_failure (x ∷ xs) ys e h = cc

pub HasFailed-ne_nil : {os os' : List Outcome} → HasFailed os os' → os ≢ []
HasFailed-ne_nil {os} {os'} h q = no_failure h.calls os' h.error (sym q ∙ h.split)
