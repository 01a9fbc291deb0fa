-- ===== src/Projections/Memory.antt =====
-- internal/projections/memory/store.go: the in-process views. Every method, and the whole body that
-- `WithTx` is given, runs under the store's mutex, so each is one step on the state.
use streamledger.Prelude.{
  Bool, true, false, none, some, [], String, if◌then◌else◌, ℤ, pos, ltb_ℤ, string_eq, Map, lookup,
  lookup_or, insert,
}
use streamledger.Outcome.{Outcome, ok}
use streamledger.Action.{Action}
use streamledger.Projections.{
  AccountView, InventoryView, zero_account_view, zero_inventory_view, ReadModelStore,
}

pub record ReadModels : Type 0 where
  pub accounts : Map String AccountView
  pub inventory : Map String InventoryView
  pub checkpoints : Map String ℤ

abbrev pub new : ReadModels
new = record { accounts = []; inventory = []; checkpoints = [] }

unfoldable pub get_account : String → ReadModels → Outcome (AccountView × Bool)
get_account account_id s = elim (lookup account_id s.accounts) [
  | some view ↦ ok (view, true)
  | none ↦ ok (zero_account_view, false)
]

unfoldable pub upsert_account : AccountView → Action ReadModels (Unit {0})
upsert_account view s = (ok tt, record s { accounts = insert view.account_id view s.accounts })

unfoldable pub get_inventory : String → ReadModels → Outcome (InventoryView × Bool)
get_inventory item_id s = elim (lookup item_id s.inventory) [
  | some view ↦ ok (view, true)
  | none ↦ ok (zero_inventory_view, false)
]

unfoldable pub upsert_inventory : InventoryView → Action ReadModels (Unit {0})
upsert_inventory view s = (ok tt, record s { inventory = insert view.item_id view s.inventory })

unfoldable pub get_checkpoint : String → ReadModels → Outcome ℤ
get_checkpoint projection_name s = ok (lookup_or (pos 0) projection_name s.checkpoints)

unfoldable pub set_checkpoint : String → ℤ → Action ReadModels (Unit {0})
set_checkpoint projection_name global_seq s =
    if ltb_ℤ (lookup_or (pos 0) projection_name s.checkpoints) global_seq
    then (ok tt, record s { checkpoints = insert projection_name global_seq s.checkpoints })
    else (ok tt, s)

unfoldable pub with_tx : Action ReadModels Bool → Action ReadModels Bool
with_tx fn s = fn s

abbrev pub read_models : ReadModelStore ReadModels
read_models = record {
  get_account = get_account;
  upsert_account = upsert_account;
  get_inventory = get_inventory;
  upsert_inventory = upsert_inventory;
  get_checkpoint = get_checkpoint;
  set_checkpoint = set_checkpoint;
  with_tx = with_tx;
}
