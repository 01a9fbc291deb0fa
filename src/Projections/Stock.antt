-- ===== src/Projections/Stock.antt =====
-- The inventory views of the read side and one turn of the fold of the write side.
pub mod Mirror
use streamledger.Prelude.{
  ℕ, suc, ◌<◌, ◌^◌, ◌≡◌, ◌≢◌, refl, sym, ap, ◌∙◌, inl, inr, Bool, none, some, Option-cases, true,
  false, Bool-cases, List, [], ◌∷◌, ◌++◌, String, arith, if◌then◌else◌, length, ◌==◌, string_eq,
  eq_iff, insert, lookup, lookup_or, lookup-insert, select-append,
}
use streamledger.Int64.{wrap64}
use streamledger.Outcome.{ok, ◌>>=◌, >>=-eq-ok, >>=-ok, Outcome-cases}
use streamledger.EventStore.{Event, StreamKey, stream_key_eq, key_of, stream}
use streamledger.EventStore.Numbering.{Numbered}
use streamledger.EventStore.Streams.{stream-snoc_self, stream-snoc_ne}
use streamledger.Ledger.Events.{aggregate_type_inventory_item}
use streamledger.Ledger.State.{
  InventoryState, apply_inventory, fold_inventory, fold_inventory_from, zero_inventory,
}
use streamledger.Projections.{InventoryView, zero_inventory_view}
use streamledger.Projections.Appliers.{inventory_relevant, inventory_change, inventory_apply}
use streamledger.Projections.Memory.{ReadModels, new, read_models, get_inventory, upsert_inventory}
use streamledger.Projections.Projector.{Projector, inventory_applier, apply_relevant, apply_batch}
use streamledger.Projections.Redelivery.{projector, KeepsCheckpoints, AtLeastOnce}
use streamledger.Projections.Showing.{Shown, follow_log}

abbrev pub item_key : String → StreamKey
item_key id = record { aggregate_type = aggregate_type_inventory_item; aggregate_id = id }

-- What `GetInventory` brings back, found or not.
abbrev pub item_of : String → ReadModels → InventoryView
item_of id s = lookup_or zero_inventory_view id s.inventory

-- A view shows a state: both quantities and the version.
abbrev pub Shows : InventoryView → InventoryState → Type 0
Shows view st =
    (view.available_quantity ≡ st.available_quantity)
    × (view.reserved_quantity ≡ st.reserved_quantity)
    × (view.version ≡ st.version)

-- The switch of the applier makes the same change as a turn of the fold.
pub inventory_change-fold :
    (view : InventoryView) (st st' : InventoryState) (e : Event)
    → view.available_quantity ≡ st.available_quantity
    → view.reserved_quantity ≡ st.reserved_quantity
    → apply_inventory st e ≡ ok st'
    → (inventory_change view e
        ≡ ok (record view {
          available_quantity = st'.available_quantity;
          reserved_quantity = st'.reserved_quantity;
        }))
      × (st'.version ≡ e.version)
unfolding inventory_change apply_inventory
inventory_change-fold view st st' e a r q = ground arith

pub get_inventory-item_of :
    (id : String) (s : ReadModels)
    → (found : Bool) × (get_inventory id s ≡ ok (item_of id s, found))
unfolding get_inventory
get_inventory-item_of id s = elim (Option-cases (lookup id s.inventory)) [
  | inl q ↦ (false, ground arith)
  | inr (view, q) ↦ (true, ground arith)
]

-- The view that an inventory event leaves.
abbrev pub changed : Event → InventoryState → InventoryView
changed e st = record {
  item_id = e.aggregate_id;
  available_quantity = st.available_quantity;
  reserved_quantity = st.reserved_quantity;
  version = e.version;
  updated_at = e.created_at;
}

pub inventory_apply-fold :
    (e : Event) (s : ReadModels) (st st' : InventoryState)
    → Shows (item_of e.aggregate_id s) st
    → apply_inventory st e ≡ ok st'
    → inventory_apply read_models e s
      ≡ (ok tt, record s { inventory = insert e.aggregate_id (changed e st') s.inventory })
unfolding inventory_apply upsert_inventory
inventory_apply-fold e s st st' h q =
    let (found, g) = get_inventory-item_of e.aggregate_id s in
    let change =
      inventory_change-fold (record (item_of e.aggregate_id s) { item_id = e.aggregate_id }) st st'
        e h.0 h.1 q in
    rw (g, change.0)

pub inventory_apply-KeepsCheckpoints :
    (name : String) → KeepsCheckpoints name (inventory_applier read_models)
unfolding inventory_apply upsert_inventory
inventory_apply-KeepsCheckpoints name e s =
    let (found, g) = get_inventory-item_of e.aggregate_id s in
    elim (Outcome-cases
      (inventory_change (record (item_of e.aggregate_id s) { item_id = e.aggregate_id }) e)) [
        | inl (view, q) ↦ rw (g, q)
        | inr (x, q) ↦ rw (g, q)
      ]
