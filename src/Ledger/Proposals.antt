-- ===== src/Ledger/Proposals.antt =====
-- What a proposal says of the state it was decided from.
use streamledger.Prelude.{◌≡◌, List, String, arith, ℤ}
use streamledger.Outcome
use streamledger.Outcome.{Outcome, ok, >>=-eq-ok}
use streamledger.EventStore.{Event}
use streamledger.Ledger.Events.{
  FundsDeposited, FundsWithdrawn, InventoryAdjusted, StockReserved, StockReleased,
  event_funds_deposited, event_funds_withdrawn, event_inventory_adjusted, event_stock_reserved,
  event_stock_released, marshal_funds_deposited, marshal_funds_withdrawn,
  marshal_inventory_adjusted, marshal_stock_reserved, marshal_stock_released,
}
use streamledger.Ledger.State.{AccountState, InventoryState, fold_account, fold_inventory}
use streamledger.Ledger.Decide.{
  decide_deposit, decide_withdraw, decide_adjust_inventory, decide_reserve_stock,
  decide_release_stock,
}
use streamledger.Ledger.Versions.{version-fold_account, version-fold_inventory}
use streamledger.Ledger.Service.{
  Proposal, deposit_proposal, withdraw_proposal, adjust_inventory_proposal, reserve_stock_proposal,
  release_stock_proposal,
}
use streamledger.Ledger.Service.Commit.{Sees}

-- The events fold to a state, the rule accepts it with this payload, and the proposal carries the
-- state's version and the payload.

pub record FundsDepositedFrom (events : List Event) (account_id : String) (amount_cents : ℤ)
    (reason : String) (p : Proposal) : Type 0 where
  pub state : AccountState
  pub folded : fold_account account_id events ≡ ok state
  pub payload : FundsDeposited
  pub accepted : decide_deposit state amount_cents reason ≡ ok payload
  pub made : p ≡ record {
    version = state.version;
    event_type = event_funds_deposited;
    payload = marshal_funds_deposited payload;
  }

pub deposit_proposal-ok :
    (events : List Event) (account_id : String) (amount_cents : ℤ) (reason : String) (p : Proposal)
    → deposit_proposal account_id amount_cents reason events ≡ ok p
    → FundsDepositedFrom events account_id amount_cents reason p
unfolding deposit_proposal
deposit_proposal-ok events account_id amount_cents reason p e =
    let make = λ (st : AccountState) (x : FundsDeposited). ok (
      let q : Proposal = record {
        version = st.version;
        event_type = event_funds_deposited;
        payload = marshal_funds_deposited x;
      } in
      q) in
    let (st, f, q) =
      >>=-eq-ok (fold_account account_id events)
        (λ st. Outcome.◌>>=◌ (decide_deposit st amount_cents reason) (make st)) e in
    let (x, g, made) = >>=-eq-ok (decide_deposit st amount_cents reason) (make st) q in
    record { state = st; folded = f; payload = x; accepted = g; made = ground arith }

pub deposit_proposal-Sees :
    (account_id : String) (amount_cents : ℤ) (reason : String)
    → Sees (deposit_proposal account_id amount_cents reason)
deposit_proposal-Sees account_id amount_cents reason events p h e =
    let from = deposit_proposal-ok events account_id amount_cents reason p e in
    rw from.made (version-fold_account account_id events from.state h from.folded)

pub record FundsWithdrawnFrom (events : List Event) (account_id : String) (amount_cents : ℤ)
    (reason : String) (p : Proposal) : Type 0 where
  pub state : AccountState
  pub folded : fold_account account_id events ≡ ok state
  pub payload : FundsWithdrawn
  pub accepted : decide_withdraw state amount_cents reason ≡ ok payload
  pub made : p ≡ record {
    version = state.version;
    event_type = event_funds_withdrawn;
    payload = marshal_funds_withdrawn payload;
  }

pub withdraw_proposal-ok :
    (events : List Event) (account_id : String) (amount_cents : ℤ) (reason : String) (p : Proposal)
    → withdraw_proposal account_id amount_cents reason events ≡ ok p
    → FundsWithdrawnFrom events account_id amount_cents reason p
unfolding withdraw_proposal
withdraw_proposal-ok events account_id amount_cents reason p e =
    let make = λ (st : AccountState) (x : FundsWithdrawn). ok (
      let q : Proposal = record {
        version = st.version;
        event_type = event_funds_withdrawn;
        payload = marshal_funds_withdrawn x;
      } in
      q) in
    let (st, f, q) =
      >>=-eq-ok (fold_account account_id events)
        (λ st. Outcome.◌>>=◌ (decide_withdraw st amount_cents reason) (make st)) e in
    let (x, g, made) = >>=-eq-ok (decide_withdraw st amount_cents reason) (make st) q in
    record { state = st; folded = f; payload = x; accepted = g; made = ground arith }

pub withdraw_proposal-Sees :
    (account_id : String) (amount_cents : ℤ) (reason : String)
    → Sees (withdraw_proposal account_id amount_cents reason)
withdraw_proposal-Sees account_id amount_cents reason events p h e =
    let from = withdraw_proposal-ok events account_id amount_cents reason p e in
    rw from.made (version-fold_account account_id events from.state h from.folded)

pub record InventoryAdjustedFrom (events : List Event) (item_id : String) (delta : ℤ)
    (reason : String) (p : Proposal) : Type 0 where
  pub state : InventoryState
  pub folded : fold_inventory item_id events ≡ ok state
  pub payload : InventoryAdjusted
  pub accepted : decide_adjust_inventory state item_id delta reason ≡ ok payload
  pub made : p ≡ record {
    version = state.version;
    event_type = event_inventory_adjusted;
    payload = marshal_inventory_adjusted payload;
  }

pub adjust_inventory_proposal-ok :
    (events : List Event) (item_id : String) (delta : ℤ) (reason : String) (p : Proposal)
    → adjust_inventory_proposal item_id delta reason events ≡ ok p
    → InventoryAdjustedFrom events item_id delta reason p
unfolding adjust_inventory_proposal
adjust_inventory_proposal-ok events item_id delta reason p e =
    let make = λ (st : InventoryState) (x : InventoryAdjusted). ok (
      let q : Proposal = record {
        version = st.version;
        event_type = event_inventory_adjusted;
        payload = marshal_inventory_adjusted x;
      } in
      q) in
    let (st, f, q) =
      >>=-eq-ok (fold_inventory item_id events)
        (λ st. Outcome.◌>>=◌ (decide_adjust_inventory st item_id delta reason) (make st)) e in
    let (x, g, made) = >>=-eq-ok (decide_adjust_inventory st item_id delta reason) (make st) q in
    record { state = st; folded = f; payload = x; accepted = g; made = ground arith }

pub adjust_inventory_proposal-Sees :
    (item_id : String) (delta : ℤ) (reason : String)
    → Sees (adjust_inventory_proposal item_id delta reason)
adjust_inventory_proposal-Sees item_id delta reason events p h e =
    let from = adjust_inventory_proposal-ok events item_id delta reason p e in
    rw from.made (version-fold_inventory item_id events from.state h from.folded)

pub record StockReservedFrom (events : List Event) (item_id : String) (quantity : ℤ)
    (order_id : String) (p : Proposal) : Type 0 where
  pub state : InventoryState
  pub folded : fold_inventory item_id events ≡ ok state
  pub payload : StockReserved
  pub accepted : decide_reserve_stock state item_id quantity order_id ≡ ok payload
  pub made : p ≡ record {
    version = state.version;
    event_type = event_stock_reserved;
    payload = marshal_stock_reserved payload;
  }

pub reserve_stock_proposal-ok :
    (events : List Event) (item_id : String) (quantity : ℤ) (order_id : String) (p : Proposal)
    → reserve_stock_proposal item_id quantity order_id events ≡ ok p
    → StockReservedFrom events item_id quantity order_id p
unfolding reserve_stock_proposal
reserve_stock_proposal-ok events item_id quantity order_id p e =
    let make = λ (st : InventoryState) (x : StockReserved). ok (
      let q : Proposal = record {
        version = st.version;
        event_type = event_stock_reserved;
        payload = marshal_stock_reserved x;
      } in
      q) in
    let (st, f, q) =
      >>=-eq-ok (fold_inventory item_id events)
        (λ st. Outcome.◌>>=◌ (decide_reserve_stock st item_id quantity order_id) (make st)) e in
    let (x, g, made) = >>=-eq-ok (decide_reserve_stock st item_id quantity order_id) (make st) q in
    record { state = st; folded = f; payload = x; accepted = g; made = ground arith }

pub reserve_stock_proposal-Sees :
    (item_id : String) (quantity : ℤ) (order_id : String)
    → Sees (reserve_stock_proposal item_id quantity order_id)
reserve_stock_proposal-Sees item_id quantity order_id events p h e =
    let from = reserve_stock_proposal-ok events item_id quantity order_id p e in
    rw from.made (version-fold_inventory item_id events from.state h from.folded)

pub record StockReleasedFrom (events : List Event) (item_id : String) (quantity : ℤ)
    (order_id : String) (p : Proposal) : Type 0 where
  pub state : InventoryState
  pub folded : fold_inventory item_id events ≡ ok state
  pub payload : StockReleased
  pub accepted : decide_release_stock state item_id quantity order_id ≡ ok payload
  pub made : p ≡ record {
    version = state.version;
    event_type = event_stock_released;
    payload = marshal_stock_released payload;
  }

pub release_stock_proposal-ok :
    (events : List Event) (item_id : String) (quantity : ℤ) (order_id : String) (p : Proposal)
    → release_stock_proposal item_id quantity order_id events ≡ ok p
    → StockReleasedFrom events item_id quantity order_id p
unfolding release_stock_proposal
release_stock_proposal-ok events item_id quantity order_id p e =
    let make = λ (st : InventoryState) (x : StockReleased). ok (
      let q : Proposal = record {
        version = st.version;
        event_type = event_stock_released;
        payload = marshal_stock_released x;
      } in
      q) in
    let (st, f, q) =
      >>=-eq-ok (fold_inventory item_id events)
        (λ st. Outcome.◌>>=◌ (decide_release_stock st item_id quantity order_id) (make st)) e in
    let (x, g, made) = >>=-eq-ok (decide_release_stock st item_id quantity order_id) (make st) q in
    record { state = st; folded = f; payload = x; accepted = g; made = ground arith }

pub release_stock_proposal-Sees :
    (item_id : String) (quantity : ℤ) (order_id : String)
    → Sees (release_stock_proposal item_id quantity order_id)
release_stock_proposal-Sees item_id quantity order_id events p h e =
    let from = release_stock_proposal-ok events item_id quantity order_id p e in
    rw from.made (version-fold_inventory item_id events from.state h from.folded)
