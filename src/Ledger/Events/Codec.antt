-- ===== src/Ledger/Events/Codec.antt =====
-- The payloads of internal/ledger/events.go, written and read back.
use streamledger.Prelude.{◌≡◌, arith, ℤ, String, string_eq, eq_iff}
use streamledger.Int64.{IsInt64}
use streamledger.Outcome.{ok}
use streamledger.Json.{is_int64_of_IsInt64}
use streamledger.Ledger.Events.{
  AccountOpened, marshal_account_opened, unmarshal_account_opened, FundsDeposited,
  marshal_funds_deposited, unmarshal_funds_deposited, FundsWithdrawn, marshal_funds_withdrawn,
  unmarshal_funds_withdrawn, InventoryAdjusted, marshal_inventory_adjusted,
  unmarshal_inventory_adjusted, StockReserved, marshal_stock_reserved, unmarshal_stock_reserved,
  StockReleased, marshal_stock_released, unmarshal_stock_released,
}

pub unmarshal-marshal_account_opened :
    (p : AccountOpened)
    → IsInt64 p.initial_balance_cents
    → unmarshal_account_opened (marshal_account_opened p) ≡ ok p
unfolding unmarshal_account_opened marshal_account_opened
unmarshal-marshal_account_opened p h = rw (is_int64_of_IsInt64 p.initial_balance_cents h)

pub unmarshal-marshal_funds_deposited :
    (p : FundsDeposited)
    → IsInt64 p.amount_cents
    → unmarshal_funds_deposited (marshal_funds_deposited p) ≡ ok p
unfolding unmarshal_funds_deposited marshal_funds_deposited
unmarshal-marshal_funds_deposited p h =
    ground (arith, is_int64_of_IsInt64 p.amount_cents h, eq_iff p.reason "")

pub unmarshal-marshal_funds_withdrawn :
    (p : FundsWithdrawn)
    → IsInt64 p.amount_cents
    → unmarshal_funds_withdrawn (marshal_funds_withdrawn p) ≡ ok p
unfolding unmarshal_funds_withdrawn marshal_funds_withdrawn
unmarshal-marshal_funds_withdrawn p h =
    ground (arith, is_int64_of_IsInt64 p.amount_cents h, eq_iff p.reason "")

pub unmarshal-marshal_inventory_adjusted :
    (p : InventoryAdjusted)
    → IsInt64 p.delta_quantity
    → unmarshal_inventory_adjusted (marshal_inventory_adjusted p) ≡ ok p
unfolding unmarshal_inventory_adjusted marshal_inventory_adjusted
unmarshal-marshal_inventory_adjusted p h =
    ground (arith, is_int64_of_IsInt64 p.delta_quantity h, eq_iff p.reason "")

pub unmarshal-marshal_stock_reserved :
    (p : StockReserved)
    → IsInt64 p.quantity
    → unmarshal_stock_reserved (marshal_stock_reserved p) ≡ ok p
unfolding unmarshal_stock_reserved marshal_stock_reserved
unmarshal-marshal_stock_reserved p h =
    ground (arith, is_int64_of_IsInt64 p.quantity h, eq_iff p.order_id "")

pub unmarshal-marshal_stock_released :
    (p : StockReleased)
    → IsInt64 p.quantity
    → unmarshal_stock_released (marshal_stock_released p) ≡ ok p
unfolding unmarshal_stock_released marshal_stock_released
unmarshal-marshal_stock_released p h =
    ground (arith, is_int64_of_IsInt64 p.quantity h, eq_iff p.order_id "")

-- Each of the six payloads, with this amount, identifier and note, is read back as it was written.
abbrev pub RoundTrips : ℤ → String → String → Type 0
RoundTrips a id note =
    (unmarshal_account_opened
        (marshal_account_opened (record { account_id = id; initial_balance_cents = a }))
      ≡ ok (record { account_id = id; initial_balance_cents = a }))
    × (unmarshal_funds_deposited
          (marshal_funds_deposited (record { account_id = id; amount_cents = a; reason = note }))
        ≡ ok (record { account_id = id; amount_cents = a; reason = note }))
    × (unmarshal_funds_withdrawn
          (marshal_funds_withdrawn (record { account_id = id; amount_cents = a; reason = note }))
        ≡ ok (record { account_id = id; amount_cents = a; reason = note }))
    × (unmarshal_inventory_adjusted
          (marshal_inventory_adjusted (record { item_id = id; delta_quantity = a; reason = note }))
        ≡ ok (record { item_id = id; delta_quantity = a; reason = note }))
    × (unmarshal_stock_reserved
          (marshal_stock_reserved (record { item_id = id; quantity = a; order_id = note }))
        ≡ ok (record { item_id = id; quantity = a; order_id = note }))
    × (unmarshal_stock_released
          (marshal_stock_released (record { item_id = id; quantity = a; order_id = note }))
        ≡ ok (record { item_id = id; quantity = a; order_id = note }))

-- Whatever payload is written with an int64 amount is read back as it was, with an empty optional
-- string, which is left out of the document, too.
pub payloads_round_trip : (a : ℤ) (id note : String) → IsInt64 a → RoundTrips a id note
payloads_round_trip a id note h = (
  unmarshal-marshal_account_opened _ h,
  unmarshal-marshal_funds_deposited _ h,
  unmarshal-marshal_funds_withdrawn _ h,
  unmarshal-marshal_inventory_adjusted _ h,
  unmarshal-marshal_stock_reserved _ h,
  unmarshal-marshal_stock_released _ h,
)
