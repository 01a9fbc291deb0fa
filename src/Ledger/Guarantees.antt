-- ===== src/Ledger/Guarantees.antt =====
-- Deposits and withdrawals among other clients, in auto mode (the caller pins no version).
use streamledger.Prelude.{
  ◌^◌, ◌<◌, ◌≡◌, ◌⊎◌, inl, inr, ap, ◌∙◌, true, false, List, [], ◌∷◌, ◌++◌, String, length, ℤ, pos,
  ◌<ℤ◌, ◌≤ℤ◌, string_eq,
}
use streamledger.Int64.{IsInt64, add64, sub64}
use streamledger.Outcome.{Outcome, ok}
use streamledger.EventStore.{Event, Store, no_version_check, key_of, stream}
use streamledger.EventStore.Streams.{stream-snoc_self}
use streamledger.EventStore.Contract.{Lawful}
use streamledger.Ledger.Command.{World, Others}
use streamledger.Ledger.Interleaving.{Respects, Waits}
use streamledger.Ledger.State.{AccountState, fold_account, apply_account}
use streamledger.Ledger.Account.{
  withdraws, fold_account-snoc, decide_withdraw-ok, decide_deposit-ok, apply_account-deposited,
  apply_account-withdrawn,
}
use streamledger.Ledger.Proposals.{
  withdraw_proposal-ok, withdraw_proposal-Sees, deposit_proposal-ok, deposit_proposal-Sees,
}
use streamledger.Ledger.Solvency.{
  account_key, AllSolvent, AllSolvent-snoc, KeepSolvent, Waits-AllSolvent,
}
use streamledger.Ledger.Service.{
  Result, Service, Proposal, deposit, withdraw, deposit_proposal, withdraw_proposal,
}
use streamledger.Ledger.Service.Settle.{Silent}
use streamledger.Ledger.Service.Run.{run_command-Ends}

module _ {S : Type 0} {ops : Store S} (laws : Lawful ops) {others : Others S}
    (r : Respects laws others) (svc : Service) where
  -- The account's balance moved from one value to another, by one event that the command appended
  -- to the store that it found, and nothing came in between.
  pub record Moved (id : String) (w : World S) (x : Outcome Result × World S) (move : ℤ → ℤ)
      : Type 0 where
    pub at : World S
    pub waited : Waits others w at
    pub event : Event
    pub grown : laws.log x.1.store ≡ laws.log at.store ++ event ∷ []
    pub state : AccountState
    pub before : fold_account id (stream (account_key id) (laws.log at.store)) ≡ ok state
    pub was_open : state.opened ≡ true
    pub after :
        fold_account id (stream (account_key id) (laws.log x.1.store))
        ≡ ok (record state { version = event.version; balance_cents = move state.balance_cents })
    pub reported :
        x.0 ≡ ok (record { applied = true; duplicate = false; new_version = event.version })

  -- The state after the command's event was added to its stream.
  fold-grown :
      (id : String) (before : List Event) (e : Event) {st : AccountState} {after : List Event}
      → after ≡ before ++ e ∷ []
      → key_of e ≡ account_key id
      → fold_account id (stream (account_key id) before) ≡ ok st
      → fold_account id (stream (account_key id) after) ≡ apply_account st e
  fold-grown id before e grown k f = rw (
    grown,
    stream-snoc_self (account_key id) before e k,
    fold_account-snoc id (stream (account_key id) before) e,
    f,
  )

  module _ (id : String) (amount : ℤ) (reason d : String) (w : World S)
      (h : laws.IsValid w.store) where
    abbrev deposited : Outcome Result × World S
    deposited = deposit ops others svc id amount reason d no_version_check w

    abbrev withdrawn : Outcome Result × World S
    withdrawn = withdraw ops others svc id amount reason d no_version_check w

    -- In auto mode, on a valid store, with others that keep it valid and only append: a deposit (of
    -- an int64 amount, in a log that stays below 2^63 events) changes and publishes nothing and
    -- reports no new result, or the log grows by just one event, which adds the amount (as an int64 sum) to the account's balance at that same
    -- moment, and it reports that event's version.
    pub deposit_commits :
        IsInt64 amount
        → length (laws.log deposited.1.store) < 2 ^ 63
        → Silent others w deposited ⊎ Moved id w deposited (λ b. add64 b amount)
    unfolding deposit
    deposit_commits fits small =
        elim (run_command-Ends laws r svc (account_key id) d (deposit_proposal id amount reason)
          (deposit_proposal-Sees id amount reason) w h small) [
            | inl silent ↦ inl silent
            | inr c ↦
                let from = deposit_proposal-ok _ id amount reason c.proposal c.decided in
                let rule = decide_deposit-ok from.state amount reason from.payload from.accepted in
                let stored =
                  apply_account-deposited from.state c.event from.payload (rw rule.2 fits)
                    (c.stored_type ∙ ap (λ (p : Proposal). p.event_type) from.made)
                    (c.stored_payload ∙ ap (λ (p : Proposal). p.payload) from.made) in
                inr (record {
                  at = c.at;
                  waited = c.waited;
                  event = c.event;
                  grown = c.grown;
                  state = from.state;
                  before = from.folded;
                  was_open = rule.0;
                  after =
                      fold-grown id _ c.event c.grown c.stored_under from.folded
                      ∙ stored
                      ∙ ap
                          (λ a. ok (record from.state {
                            version = c.event.version;
                            balance_cents = add64 from.state.balance_cents a;
                          }))
                          rule.2;
                  reported = c.reported;
                })
          ]

    -- In auto mode, on a valid store, with others that keep it valid and only append: a withdrawal
    -- (of an int64 amount, in a log that stays below 2^63 events) changes and publishes nothing and
    -- reports no new result, or the log grows by just one event, which takes the amount from the
    -- account's balance at the moment of the append; the amount is positive and that balance covers
    -- it, whatever the others did between the command's load and its append.
    pub withdraw_commits :
        IsInt64 amount
        → length (laws.log withdrawn.1.store) < 2 ^ 63
        → Silent others w withdrawn
          ⊎ ((m : Moved id w withdrawn (λ b. sub64 b amount)) × (pos 0 <ℤ amount)
              × (amount ≤ℤ m.state.balance_cents))
    unfolding withdraw
    withdraw_commits fits small =
        elim (run_command-Ends laws r svc (account_key id) d (withdraw_proposal id amount reason)
          (withdraw_proposal-Sees id amount reason) w h small) [
            | inl silent ↦ inl silent
            | inr c ↦
                let from = withdraw_proposal-ok _ id amount reason c.proposal c.decided in
                let rule = decide_withdraw-ok from.state amount reason from.payload from.accepted in
                let stored =
                  apply_account-withdrawn from.state c.event from.payload (rw rule.3 fits)
                    (c.stored_type ∙ ap (λ (p : Proposal). p.event_type) from.made)
                    (c.stored_payload ∙ ap (λ (p : Proposal). p.payload) from.made) in
                inr (
                  record {
                    at = c.at;
                    waited = c.waited;
                    event = c.event;
                    grown = c.grown;
                    state = from.state;
                    before = from.folded;
                    was_open = rule.0;
                    after =
                        fold-grown id _ c.event c.grown c.stored_under from.folded
                        ∙ stored
                        ∙ ap
                            (λ a. ok (record from.state {
                              version = c.event.version;
                              balance_cents = sub64 from.state.balance_cents a;
                            }))
                            rule.3;
                    reported = c.reported;
                  },
                  rule.1,
                  rule.2,
                )
          ]

    -- If, on a valid store, every replayable account has a balance that is a nonnegative int64, and
    -- the others keep it so, then every replayable account still has one after a withdrawal in auto
    -- mode, whatever its outcome (in a log that stays below 2^63 events).
    pub withdraw-AllSolvent :
        KeepSolvent laws r
        → length (laws.log withdrawn.1.store) < 2 ^ 63
        → AllSolvent (laws.log w.store)
        → AllSolvent (laws.log withdrawn.1.store)
    unfolding withdraw
    withdraw-AllSolvent keep small all =
        elim (run_command-Ends laws r svc (account_key id) d (withdraw_proposal id amount reason)
          (withdraw_proposal-Sees id amount reason) w h small) [
            | inl (_, wt) ↦ Waits-AllSolvent laws r keep wt h all
            | inr c ↦
                let from = withdraw_proposal-ok _ id amount reason c.proposal c.decided in
                rw c.grown (
                  AllSolvent-snoc id (laws.log c.at.store) c.event from.state
                    (Waits-AllSolvent laws r keep c.waited h all) c.stored_under from.folded
                    (withdraws amount reason from.payload from.accepted
                      (c.stored_type ∙ ap (λ (p : Proposal). p.event_type) from.made)
                      (c.stored_payload ∙ ap (λ (p : Proposal). p.payload) from.made)))
          ]
