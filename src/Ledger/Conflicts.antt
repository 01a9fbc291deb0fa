-- ===== src/Ledger/Conflicts.antt =====
-- The rules of internal/ledger and the folds report no version conflict.
use streamledger.Prelude.{◌≡◌, ◌≢◌, ap, List, [], ◌∷◌, String, arith, ℤ, string_eq}
use streamledger.Outcome.{Outcome, ok, err, version_conflict, ◌>>=◌}
use streamledger.EventStore.{Event}
use streamledger.Ledger.State.{
  AccountState, zero_account, apply_account, fold_account_from, fold_account,
}
use streamledger.Ledger.Decide.{decide_withdraw}
use streamledger.Ledger.Service.{withdraw_proposal}

-- A chain whose links report no version conflict reports none.
bound-decides :
    {A B : Type 0} (m : Outcome A) (f : A → Outcome B)
    → m ≢ err version_conflict
    → ((a : A) → f a ≢ err version_conflict)
    → (m >>= f) ≢ err version_conflict
bound-decides (ok a) f first rest h = rest a h
bound-decides (err e) f first rest h =
    first (ap err (let is : e ≡ version_conflict = ground arith in is))

-- Nor does replaying an account.
apply_account-decides : (st : AccountState) (e : Event) → apply_account st e ≢ err version_conflict
unfolding apply_account
apply_account-decides st e h = absurd (ground arith)

fold_account_from-decides :
    (st : AccountState) (events : List Event) → fold_account_from st events ≢ err version_conflict
unfolding fold_account_from
fold_account_from-decides st [] h = absurd (ground arith)
fold_account_from-decides st (e ∷ events) h =
    bound-decides (apply_account st e) (λ st'. fold_account_from st' events)
      (apply_account-decides st e) (λ st'. fold_account_from-decides st' events) h

pub withdraw_proposal-decides :
    (account_id : String) (amount_cents : ℤ) (reason : String) (events : List Event)
    → withdraw_proposal account_id amount_cents reason events ≢ err version_conflict
unfolding withdraw_proposal fold_account decide_withdraw
withdraw_proposal-decides account_id amount_cents reason events =
    bound-decides (fold_account account_id events) _
      (fold_account_from-decides (zero_account account_id) events)
      (λ current h. absurd (ground arith))
