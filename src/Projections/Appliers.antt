-- ===== src/Projections/Appliers.antt =====
-- internal/projections/account_applier.go and inventory_applier.go: how one event changes a view.
use streamledger.Prelude.{Bool, if◌then◌else◌, ◌==◌, string_eq}
use streamledger.Int64.{add64, sub64}
use streamledger.Outcome.{Outcome, ok, err, decode, unknown_event_type, wrap_error}
use streamledger.Outcome.{◌>>=◌ as ◌>>=ₒ◌}
use streamledger.EventStore.{Event}
use streamledger.Ledger.Events.{
  aggregate_type_account, aggregate_type_inventory_item, event_account_opened,
  event_funds_deposited, event_funds_withdrawn, event_inventory_adjusted, event_stock_reserved,
  event_stock_released, unmarshal_account_opened, unmarshal_funds_deposited,
  unmarshal_funds_withdrawn, unmarshal_inventory_adjusted, unmarshal_stock_reserved,
  unmarshal_stock_released,
}
use streamledger.Action.{Action, lift, ◌>>=◌}
use streamledger.Projections.{AccountView, InventoryView, ReadModelStore}

unfoldable pub account_relevant : Event → Bool
account_relevant e = e.aggregate_type == aggregate_type_account

-- The switch of `AccountApplier.Apply`: the view with its new balance.
unfoldable pub account_change : AccountView → Event → Outcome AccountView
account_change view e =
    if e.event_type == event_account_opened
    then (wrap_error (decode e.event_type) (unmarshal_account_opened e.payload) >>=ₒ λ payload.
        ok (record view { balance_cents = payload.initial_balance_cents }))
    else if e.event_type == event_funds_deposited
    then (wrap_error (decode e.event_type) (unmarshal_funds_deposited e.payload) >>=ₒ λ payload.
        ok (record view { balance_cents = add64 view.balance_cents payload.amount_cents }))
    else if e.event_type == event_funds_withdrawn
    then (wrap_error (decode e.event_type) (unmarshal_funds_withdrawn e.payload) >>=ₒ λ payload.
        ok (record view { balance_cents = sub64 view.balance_cents payload.amount_cents }))
    else err (unknown_event_type e.event_type)

unfoldable pub inventory_relevant : Event → Bool
inventory_relevant e = e.aggregate_type == aggregate_type_inventory_item

-- The switch of `InventoryApplier.Apply`: the view with its new quantities.
unfoldable pub inventory_change : InventoryView → Event → Outcome InventoryView
inventory_change view e =
    if e.event_type == event_inventory_adjusted
    then (wrap_error (decode e.event_type) (unmarshal_inventory_adjusted e.payload) >>=ₒ λ payload.
        ok (record view {
          available_quantity = add64 view.available_quantity payload.delta_quantity;
        }))
    else if e.event_type == event_stock_reserved
    then (wrap_error (decode e.event_type) (unmarshal_stock_reserved e.payload) >>=ₒ λ payload.
        ok (record view {
          available_quantity = sub64 view.available_quantity payload.quantity;
          reserved_quantity = add64 view.reserved_quantity payload.quantity;
        }))
    else if e.event_type == event_stock_released
    then (wrap_error (decode e.event_type) (unmarshal_stock_released e.payload) >>=ₒ λ payload.
        ok (record view {
          reserved_quantity = sub64 view.reserved_quantity payload.quantity;
          available_quantity = add64 view.available_quantity payload.quantity;
        }))
    else err (unknown_event_type e.event_type)

module _ {S : Type 0} (store : ReadModelStore S) where
  unfoldable pub account_apply : Event → Action S (Unit {0})
  account_apply e s =
      (lift (store.get_account e.aggregate_id s) >>= λ found.
      lift (account_change (record (found.0) { account_id = e.aggregate_id }) e) >>= λ view.
      store.upsert_account (record view { version = e.version; updated_at = e.created_at }))
        s

  unfoldable pub inventory_apply : Event → Action S (Unit {0})
  inventory_apply e s =
      (lift (store.get_inventory e.aggregate_id s) >>= λ found.
      lift (inventory_change (record (found.0) { item_id = e.aggregate_id }) e) >>= λ view.
      store.upsert_inventory (record view { version = e.version; updated_at = e.created_at }))
        s
