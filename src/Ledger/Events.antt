-- ===== src/Ledger/Events.antt =====
-- internal/ledger/events.go: the event payloads, and their JSON form by the fields' tags.
pub mod Codec
use streamledger.Prelude.{String, List, [], ◌∷◌, ◌++◌, ℤ, pos}
use streamledger.Outcome.{Outcome, ok, ◌>>=◌}
use streamledger.Json.{Payload, object, str, int, decode_int, decode_str, fields_of, omit_empty}

abbrev pub aggregate_type_account : String
aggregate_type_account = "account"

abbrev pub aggregate_type_inventory_item : String
aggregate_type_inventory_item = "inventory_item"

abbrev pub event_account_opened : String
event_account_opened = "AccountOpened"

abbrev pub event_funds_deposited : String
event_funds_deposited = "FundsDeposited"

abbrev pub event_funds_withdrawn : String
event_funds_withdrawn = "FundsWithdrawn"

abbrev pub event_inventory_adjusted : String
event_inventory_adjusted = "InventoryAdjusted"

abbrev pub event_stock_reserved : String
event_stock_reserved = "StockReserved"

abbrev pub event_stock_released : String
event_stock_released = "StockReleased"

pub record AccountOpened : Type 0 where
  pub account_id : String
  pub initial_balance_cents : ℤ

pub record FundsDeposited : Type 0 where
  pub account_id : String
  pub amount_cents : ℤ
  pub reason : String

pub record FundsWithdrawn : Type 0 where
  pub account_id : String
  pub amount_cents : ℤ
  pub reason : String

pub record InventoryAdjusted : Type 0 where
  pub item_id : String
  pub delta_quantity : ℤ
  pub reason : String

pub record StockReserved : Type 0 where
  pub item_id : String
  pub quantity : ℤ
  pub order_id : String

pub record StockReleased : Type 0 where
  pub item_id : String
  pub quantity : ℤ
  pub order_id : String

-- json.Marshal and json.Unmarshal at each payload type. Decoding starts from the zero struct.

unfoldable pub marshal_account_opened : AccountOpened → Payload
marshal_account_opened p =
    object (
      ("account_id", str p.account_id)
      ∷ ("initial_balance_cents", int p.initial_balance_cents)
      ∷ [])

unfoldable pub unmarshal_account_opened : Payload → Outcome AccountOpened
unmarshal_account_opened payload = do
  fields ← fields_of payload
  account_id ← decode_str "account_id" fields ""
  initial_balance_cents ← decode_int "initial_balance_cents" fields (pos 0)
  ok (record { account_id = account_id; initial_balance_cents = initial_balance_cents })

unfoldable pub marshal_funds_deposited : FundsDeposited → Payload
marshal_funds_deposited p = object (
    ("account_id", str p.account_id)
    ∷ ("amount_cents", int p.amount_cents)
    ∷ omit_empty "reason" p.reason)

unfoldable pub unmarshal_funds_deposited : Payload → Outcome FundsDeposited
unmarshal_funds_deposited payload = do
  fields ← fields_of payload
  account_id ← decode_str "account_id" fields ""
  amount_cents ← decode_int "amount_cents" fields (pos 0)
  reason ← decode_str "reason" fields ""
  ok (record { account_id = account_id; amount_cents = amount_cents; reason = reason })

unfoldable pub marshal_funds_withdrawn : FundsWithdrawn → Payload
marshal_funds_withdrawn p = object (
    ("account_id", str p.account_id)
    ∷ ("amount_cents", int p.amount_cents)
    ∷ omit_empty "reason" p.reason)

unfoldable pub unmarshal_funds_withdrawn : Payload → Outcome FundsWithdrawn
unmarshal_funds_withdrawn payload = do
  fields ← fields_of payload
  account_id ← decode_str "account_id" fields ""
  amount_cents ← decode_int "amount_cents" fields (pos 0)
  reason ← decode_str "reason" fields ""
  ok (record { account_id = account_id; amount_cents = amount_cents; reason = reason })

unfoldable pub marshal_inventory_adjusted : InventoryAdjusted → Payload
marshal_inventory_adjusted p = object (
    ("item_id", str p.item_id)
    ∷ ("delta_quantity", int p.delta_quantity)
    ∷ omit_empty "reason" p.reason)

unfoldable pub unmarshal_inventory_adjusted : Payload → Outcome InventoryAdjusted
unmarshal_inventory_adjusted payload = do
  fields ← fields_of payload
  item_id ← decode_str "item_id" fields ""
  delta_quantity ← decode_int "delta_quantity" fields (pos 0)
  reason ← decode_str "reason" fields ""
  ok (record { item_id = item_id; delta_quantity = delta_quantity; reason = reason })

unfoldable pub marshal_stock_reserved : StockReserved → Payload
marshal_stock_reserved p =
    object
      (("item_id", str p.item_id) ∷ ("quantity", int p.quantity) ∷ omit_empty "order_id" p.order_id)

unfoldable pub unmarshal_stock_reserved : Payload → Outcome StockReserved
unmarshal_stock_reserved payload = do
  fields ← fields_of payload
  item_id ← decode_str "item_id" fields ""
  quantity ← decode_int "quantity" fields (pos 0)
  order_id ← decode_str "order_id" fields ""
  ok (record { item_id = item_id; quantity = quantity; order_id = order_id })

unfoldable pub marshal_stock_released : StockReleased → Payload
marshal_stock_released p =
    object
      (("item_id", str p.item_id) ∷ ("quantity", int p.quantity) ∷ omit_empty "order_id" p.order_id)

unfoldable pub unmarshal_stock_released : Payload → Outcome StockReleased
unmarshal_stock_released payload = do
  fields ← fields_of payload
  item_id ← decode_str "item_id" fields ""
  quantity ← decode_int "quantity" fields (pos 0)
  order_id ← decode_str "order_id" fields ""
  ok (record { item_id = item_id; quantity = quantity; order_id = order_id })
