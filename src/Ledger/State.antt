-- ===== src/Ledger/State.antt =====
-- internal/ledger/state.go: an aggregate's state is the fold of its event stream.
-- A fold that fails returns its error alone: every caller drops the state beside an error.
use streamledger.Prelude.{
  Bool, true, false, List, [], ◌∷◌, String, if◌then◌else◌, ℤ, pos, ◌==◌, string_eq,
}
use streamledger.Int64.{add64, sub64}
use streamledger.Outcome.{Outcome, ok, err, decode, unknown_event_type, wrap_error, ◌>>=◌}
use streamledger.EventStore.{Event}
use streamledger.Ledger.Events.{
  event_account_opened, event_funds_deposited, event_funds_withdrawn, event_inventory_adjusted,
  event_stock_reserved, event_stock_released, unmarshal_account_opened, unmarshal_funds_deposited,
  unmarshal_funds_withdrawn, unmarshal_inventory_adjusted, unmarshal_stock_reserved,
  unmarshal_stock_released,
}

-- version 0: the stream does not exist yet
pub record AccountState : Type 0 where
  pub account_id : String
  pub version : ℤ
  pub opened : Bool
  pub balance_cents : ℤ

pub record InventoryState : Type 0 where
  pub item_id : String
  pub version : ℤ
  pub available_quantity : ℤ
  pub reserved_quantity : ℤ

abbrev pub zero_account : String → AccountState
zero_account account_id = record {
  account_id = account_id;
  version = pos 0;
  opened = false;
  balance_cents = pos 0;
}

abbrev pub zero_inventory : String → InventoryState
zero_inventory item_id = record {
  item_id = item_id;
  version = pos 0;
  available_quantity = pos 0;
  reserved_quantity = pos 0;
}

-- One turn of the loop of `FoldAccount`.
unfoldable pub apply_account : AccountState → Event → Outcome AccountState
apply_account st e =
    let st' = record st { version = e.version } in
    if e.event_type == event_account_opened
    then (do
      payload ← wrap_error (decode e.event_type) (unmarshal_account_opened e.payload)
      ok (record st' { opened = true; balance_cents = payload.initial_balance_cents }))
    else if e.event_type == event_funds_deposited
    then (do
      payload ← wrap_error (decode e.event_type) (unmarshal_funds_deposited e.payload)
      ok (record st' { balance_cents = add64 st.balance_cents payload.amount_cents }))
    else if e.event_type == event_funds_withdrawn
    then (do
      payload ← wrap_error (decode e.event_type) (unmarshal_funds_withdrawn e.payload)
      ok (record st' { balance_cents = sub64 st.balance_cents payload.amount_cents }))
    else err (unknown_event_type e.event_type)

unfoldable pub fold_account_from : AccountState → List Event → Outcome AccountState
fold_account_from st [] = ok st
fold_account_from st (e ∷ events) = apply_account st e >>= λ st'. fold_account_from st' events

unfoldable pub fold_account : String → List Event → Outcome AccountState
fold_account account_id events = fold_account_from (zero_account account_id) events

-- One turn of the loop of `FoldInventory`.
unfoldable pub apply_inventory : InventoryState → Event → Outcome InventoryState
apply_inventory st e =
    let st' = record st { version = e.version } in
    if e.event_type == event_inventory_adjusted
    then (do
      payload ← wrap_error (decode e.event_type) (unmarshal_inventory_adjusted e.payload)
      ok (record st' { available_quantity = add64 st.available_quantity payload.delta_quantity }))
    else if e.event_type == event_stock_reserved
    then (do
      payload ← wrap_error (decode e.event_type) (unmarshal_stock_reserved e.payload)
      ok (record st' {
        available_quantity = sub64 st.available_quantity payload.quantity;
        reserved_quantity = add64 st.reserved_quantity payload.quantity;
      }))
    else if e.event_type == event_stock_released
    then (do
      payload ← wrap_error (decode e.event_type) (unmarshal_stock_released e.payload)
      ok (record st' {
        reserved_quantity = sub64 st.reserved_quantity payload.quantity;
        available_quantity = add64 st.available_quantity payload.quantity;
      }))
    else err (unknown_event_type e.event_type)

unfoldable pub fold_inventory_from : InventoryState → List Event → Outcome InventoryState
fold_inventory_from st [] = ok st
fold_inventory_from st (e ∷ events) = apply_inventory st e >>= λ st'. fold_inventory_from st' events

unfoldable pub fold_inventory : String → List Event → Outcome InventoryState
fold_inventory item_id events = fold_inventory_from (zero_inventory item_id) events
