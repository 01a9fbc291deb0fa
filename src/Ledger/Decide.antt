-- ===== src/Ledger/Decide.antt =====
-- internal/ledger/decide.go: the pure business rules, from the folded state and a command.
use streamledger.Prelude.{not, ◌&&◌, String, if◌then◌else◌, ℤ, pos, ltb_ℤ, leb_ℤ, eqb_ℤ}
use streamledger.Int64.{add64}
use streamledger.Outcome.{
  Outcome, ok, err, invalid_amount, invalid_quantity, account_already_opened, account_not_open,
  insufficient_funds, insufficient_stock,
}
use streamledger.Ledger.Events.{
  AccountOpened, FundsDeposited, FundsWithdrawn, InventoryAdjusted, StockReserved, StockReleased,
}
use streamledger.Ledger.State.{AccountState, InventoryState}

unfoldable pub decide_open_account : AccountState → String → ℤ → Outcome AccountOpened
decide_open_account current account_id initial_balance_cents =
    if current.opened
    then err account_already_opened
    else if ltb_ℤ initial_balance_cents (pos 0)
    then err invalid_amount
    else ok (record { account_id = account_id; initial_balance_cents = initial_balance_cents })

unfoldable pub decide_deposit : AccountState → ℤ → String → Outcome FundsDeposited
decide_deposit current amount_cents reason =
    if not current.opened
    then err account_not_open
    else if leb_ℤ amount_cents (pos 0)
    then err invalid_amount
    else ok
        (record { account_id = current.account_id; amount_cents = amount_cents; reason = reason })

unfoldable pub decide_withdraw : AccountState → ℤ → String → Outcome FundsWithdrawn
decide_withdraw current amount_cents reason =
    if not current.opened
    then err account_not_open
    else if leb_ℤ amount_cents (pos 0)
    then err invalid_amount
    else if ltb_ℤ current.balance_cents amount_cents
    then err insufficient_funds
    else ok
        (record { account_id = current.account_id; amount_cents = amount_cents; reason = reason })

unfoldable pub decide_adjust_inventory :
    InventoryState → String → ℤ → String → Outcome InventoryAdjusted
decide_adjust_inventory current item_id delta reason =
    if eqb_ℤ delta (pos 0)
    then err invalid_quantity
    else if ltb_ℤ delta (pos 0) && ltb_ℤ (add64 current.available_quantity delta) (pos 0)
    then err insufficient_stock
    else ok (record { item_id = item_id; delta_quantity = delta; reason = reason })

unfoldable pub decide_reserve_stock : InventoryState → String → ℤ → String → Outcome StockReserved
decide_reserve_stock current item_id quantity order_id =
    if leb_ℤ quantity (pos 0)
    then err invalid_quantity
    else if ltb_ℤ current.available_quantity quantity
    then err insufficient_stock
    else ok (record { item_id = item_id; quantity = quantity; order_id = order_id })

unfoldable pub decide_release_stock : InventoryState → String → ℤ → String → Outcome StockReleased
decide_release_stock current item_id quantity order_id =
    if leb_ℤ quantity (pos 0)
    then err invalid_quantity
    else if ltb_ℤ current.reserved_quantity quantity
    then err insufficient_stock
    else ok (record { item_id = item_id; quantity = quantity; order_id = order_id })
