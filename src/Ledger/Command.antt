-- ===== src/Ledger/Command.antt =====
-- How a command handler of internal/ledger/service.go runs: it makes calls on a store that other
-- clients share, so between two calls of one command the others may have changed the store.
use streamledger.Prelude.{ℕ, suc, Bool, List, String}
use streamledger.Outcome.{Outcome, ok, err}
use streamledger.EventStore.{AppendEvent, Event, Store}

-- `calls` counts the calls on the store so far; `published` holds the batches handed to the
-- publisher, oldest first.
pub record World (S : Type 0) : Type 0 where
  pub store : S
  pub calls : ℕ
  pub published : List (List Event)

abbrev pub Command : Type 0 → Type 0 → Type 0
Command S A = World S → Outcome A × World S

-- What the other clients do before the n-th call of this command.
abbrev pub Others : Type 0 → Type 0
Others S = ℕ → S → S

module _ {S A : Type 0} where
  abbrev pub pure : A → Command S A
  pure a w = (ok a, w)

  abbrev pub lift : Outcome A → Command S A
  lift r w = (r, w)

module _ {S A B : Type 0} where
  abbrev pub proceed : Outcome A → (A → Command S B) → Command S B
  proceed (ok a) f w = f a w
  proceed (err e) f w = (err e, w)

  infixl 10 ◌>>=◌
  abbrev pub ◌>>=◌ : Command S A → (A → Command S B) → Command S B
  ◌>>=◌ m f w = let (r, w') = m w in proceed r f w'

-- The store as this command finds it at its next call.
abbrev pub arrive : {S : Type 0} → Others S → World S → World S
arrive others w = record w { store = others w.calls w.store; calls = suc w.calls }

module _ {S : Type 0} (ops : Store S) (others : Others S) where
  unfoldable pub call_load_stream : String → String → Command S (List Event)
  call_load_stream aggregate_type aggregate_id w =
      let w' = arrive others w in (ops.load_stream aggregate_type aggregate_id w'.store, w')

  unfoldable pub call_lookup_dedupe : String → Command S (List Event × Bool)
  call_lookup_dedupe dedupe_key w =
      let w' = arrive others w in (ops.lookup_dedupe dedupe_key w'.store, w')

  -- The outcome of `Append` is a value: the handlers inspect its error.
  unfoldable pub call_append : String → List AppendEvent → Command S (Outcome (List Event × Bool))
  call_append dedupe_key batch w =
      let w' = arrive others w in
      let (r, s) = ops.append dedupe_key batch w'.store in (ok r, record w' { store = s })
