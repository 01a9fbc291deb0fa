-- ===== src/Ledger/Interleaving.antt =====
-- What other clients may do to the store between two calls of a command, and what a command that
-- has only read so far finds.
use mathlib.Core.List.{append-nil, append_assoc}
use streamledger.Prelude.{ℕ, ◌≡◌, sym, ap, ◌∙◌, List, [], ◌++◌}
use streamledger.EventStore.{Event, Store}
use streamledger.EventStore.Contract.{Lawful}
use streamledger.Ledger.Command.{World, Others, arrive}

-- The log of the second store continues that of the first.
abbrev pub Continues : List Event → List Event → Type 0
Continues before after = (more : List Event) × (after ≡ before ++ more)

pub Continues-refl : (l : List Event) → Continues l l
Continues-refl l = ([], sym (append-nil l))

pub Continues-trans : (a b c : List Event) → Continues a b → Continues b c → Continues a c
Continues-trans a b c (x, p) (y, q) = (x ++ y, q ∙ ap (λ l. l ++ y) p ∙ append_assoc a x y)

-- The others keep the store valid and only add to its log.
pub record Respects {S : Type 0} {ops : Store S} (laws : Lawful ops) (others : Others S)
    : Type 0 where
  pub stays_valid : (n : ℕ) (s : S) → laws.IsValid s → laws.IsValid (others n s)
  pub continues : (n : ℕ) (s : S) → laws.IsValid s → Continues (laws.log s) (laws.log (others n s))

-- The command has made calls that changed nothing: the store is what the others made of it, and
-- nothing was published.
pub data Waits {S : Type 0} (others : Others S) (w : World S) : World S → Type 0 where
  here : Waits others w w
  next : {v u : World S} → Waits others w v → u ≡ arrive others v → Waits others w u

pub Waits-trans :
    {S : Type 0} {others : Others S} {w v u : World S}
    → Waits others w v
    → Waits others v u
    → Waits others w u
Waits-trans a here = a
Waits-trans a (next b e) = next (Waits-trans a b) e

module _ {S : Type 0} {ops : Store S} (laws : Lawful ops) {others : Others S}
    (r : Respects laws others) where
  -- Waiting keeps the store valid and the log an extension of what it was.
  pub Waits-Continues :
      {w u : World S}
      → Waits others w u
      → laws.IsValid w.store
      → laws.IsValid u.store × Continues (laws.log w.store) (laws.log u.store)
  Waits-Continues here h = (h, Continues-refl _)
  Waits-Continues (next {v} {u} wt e) h =
      let (hv, c) = Waits-Continues wt h in
      rw e
        (r.stays_valid v.calls v.store hv, Continues-trans _ _ _ c (r.continues v.calls v.store hv))
