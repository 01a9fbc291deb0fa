-- ===== src/Ledger/Solvency.antt =====
-- The accounts of a whole log, and whether their balances are negative.
use streamledger.Prelude.{
  ℕ, ◌≡◌, ◌≢◌, sym, ap, ◌∙◌, inl, inr, Bool-cases, true, List, [], ◌∷◌, ◌++◌, String, arith, ◌==◌,
  string_eq, eq_iff,
}
use streamledger.Outcome.{ok}
use streamledger.EventStore.{Event, Store, StreamKey, stream_key_eq, key_of, stream}
use streamledger.EventStore.Streams.{stream-snoc_self, stream-snoc_ne}
use streamledger.EventStore.Contract.{Lawful}
use streamledger.Ledger.Command.{World, Others}
use streamledger.Ledger.Interleaving.{Respects, Waits, here, next, Waits-Continues}
use streamledger.Ledger.Events.{aggregate_type_account}
use streamledger.Ledger.State.{AccountState, apply_account, fold_account}
use streamledger.Ledger.Account.{
  IsSolvent, Decided, Decided-IsSolvent, balance_after, fold_account-snoc,
}

abbrev pub account_key : String → StreamKey
account_key id = record { aggregate_type = aggregate_type_account; aggregate_id = id }

-- Every account whose events can be replayed has a balance that is not negative.
abbrev pub AllSolvent : List Event → Type 0
AllSolvent events =
    (id : String) (st : AccountState)
    → fold_account id (stream (account_key id) events) ≡ ok st
    → IsSolvent st

-- A decided event keeps every account solvent.
pub AllSolvent-snoc :
    (id : String) (events : List Event) (e : Event) (st : AccountState)
    → AllSolvent events
    → key_of e ≡ account_key id
    → fold_account id (stream (account_key id) events) ≡ ok st
    → Decided st e
    → AllSolvent (events ++ e ∷ [])
AllSolvent-snoc id events e st h k f d j st' g = elim (Bool-cases (id == j)) [
  | inl same ↦
      let g' : fold_account id (stream (account_key id) (events ++ e ∷ [])) ≡ ok st' =
        let p : id ≡ j = (eq_iff id j).0 same in rw p g in
      let step = Decided-IsSolvent d (h id st f) in
      let all = fold_account-snoc id (stream (account_key id) events) e in
      let end : apply_account st e ≡ ok st' =
        rw (stream-snoc_self (account_key id) events e k, all, f) at g' in
      let q : st'
          ≡ record st { version = e.version; opened = true; balance_cents = balance_after d } =
        ground (arith, end, step.0) in
      rw q step.1
  | inr other ↦
      let apart : key_of e ≢ account_key j =
        λ p. ground (arith, eq_iff id j, ap (λ (x : StreamKey). x.aggregate_id) (sym k ∙ p)) in
      h j st' (rw (stream-snoc_ne (account_key j) events e apart) at g)
]

module _ {S : Type 0} {ops : Store S} (laws : Lawful ops) {others : Others S}
    (r : Respects laws others) where
  -- The other clients keep every account solvent too.
  abbrev pub KeepSolvent : Type 0
  KeepSolvent =
      (n : ℕ) (s : S)
      → laws.IsValid s
      → AllSolvent (laws.log s)
      → AllSolvent (laws.log (others n s))

  pub Waits-AllSolvent :
      {w u : World S}
      → KeepSolvent
      → Waits others w u
      → laws.IsValid w.store
      → AllSolvent (laws.log w.store)
      → AllSolvent (laws.log u.store)
  Waits-AllSolvent keep here h a = a
  Waits-AllSolvent keep (next {v} wt e) h a =
      rw e (keep v.calls v.store (Waits-Continues laws r wt h).0 (Waits-AllSolvent keep wt h a))
