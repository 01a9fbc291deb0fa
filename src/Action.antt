-- ===== src/Action.antt =====
-- Go code that works on a store's state and returns an error at the first step that fails.
use streamledger.Prelude.{◌≡◌, arith, inl, inr}
use streamledger.Outcome.{Outcome, ok, err, Outcome-cases}

-- A step on a store's state, which may fail. What it does to the state stays done.
abbrev pub Action : Type 0 → Type 0 → Type 0
Action S A = S → Outcome A × S

module _ {S A : Type 0} where
  abbrev pub lift : Outcome A → Action S A
  lift r s = (r, s)

module _ {S A B : Type 0} where
  abbrev pub proceed : Outcome A → (A → Action S B) → Action S B
  proceed (ok a) f s = f a s
  proceed (err e) f s = (err e, s)

  infixl 10 ◌>>=◌
  abbrev pub ◌>>=◌ : Action S A → (A → Action S B) → Action S B
  ◌>>=◌ m f s = let (r, s') = m s in proceed r f s'

  -- An action that succeeds has taken its first step, and then the rest.
  pub >>=-eq-ok :
      (m : Action S A) (f : A → Action S B) (s : S) {b : B}
      → ((m >>= f) s).0 ≡ ok b
      → (a : A) × ((m s).0 ≡ ok a) × ((f a (m s).1).0 ≡ ok b) × ((m >>= f) s ≡ f a (m s).1)
  >>=-eq-ok m f s h = elim (Outcome-cases (m s).0) [
    | inl (a, q) ↦ (a, q, rw q at h, rw q)
    | inr (x, q) ↦ absurd (ground arith)
  ]
