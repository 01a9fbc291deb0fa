-- ===== src/Tests/Items.antt =====
-- The inventory views at a concrete log, delivered with a repeat.
use streamledger.Prelude.{
  ◌≡◌, refl, sym, inl, inr, Bool-cases, List, [], ◌∷◌, arith, ◌==◌, string_eq, eq_iff, pos, String,
  ℤ,
}
use streamledger.Outcome.{ok}
use streamledger.Json.{Payload}
use streamledger.EventStore.{Event}
use streamledger.Ledger.Events.{
  event_inventory_adjusted, event_stock_reserved, marshal_inventory_adjusted,
  marshal_stock_reserved,
}
use streamledger.Ledger.State.{zero_inventory}
use streamledger.Projections.Memory.{new}
use streamledger.Projections.Projector.{apply_batch}
use streamledger.Projections.Redelivery.{AtLeastOnce, delivered, next, again}
use streamledger.Projections.Stock.Mirror.{
  Mirrors, Replayable, inventory_projector, stock_follows_log,
}
use streamledger.Tests.World.{clock, running}
use streamledger.Tests.ReadSide.{opened_a}

abbrev item_event : ℤ → ℤ → String → Payload → Event
item_event global_seq version event_type payload = record {
  global_seq = global_seq;
  aggregate_type = "inventory_item";
  aggregate_id = "i";
  version = version;
  event_type = event_type;
  payload = payload;
  metadata = record { dedupe_key = ""; correlation_id = "" };
  created_at = clock 0;
}

abbrev adjusted : Event
adjusted =
    item_event (pos 2) (pos 1) event_inventory_adjusted
      (marshal_inventory_adjusted (record { item_id = "i"; delta_quantity = pos 10; reason = "" }))

abbrev reserved : Event
reserved =
    item_event (pos 3) (pos 2) event_stock_reserved
      (marshal_stock_reserved (record { item_id = "i"; quantity = pos 4; order_id = "o" }))

abbrev three_events : List Event
three_events = opened_a ∷ adjusted ∷ reserved ∷ []

abbrev repeated : List Event
repeated = opened_a ∷ adjusted ∷ opened_a ∷ reserved ∷ []

repeated-AtLeastOnce : AtLeastOnce 0 three_events repeated
unfolding running
repeated-AtLeastOnce =
    next opened_a (next adjusted (again opened_a 1 (omega arith) refl (next reserved delivered)))

three_events-Replayable : Replayable three_events
unfolding running
three_events-Replayable id = elim (Bool-cases ("i" == id)) [
  | inl item ↦ rw (sym ((eq_iff "i" id).0 item)) (_, refl)
  | inr other ↦ (zero_inventory id, rw other)
]

stock_follows_log_example :
    ((apply_batch (inventory_projector "inventory") repeated 0 new).0.1 ≡ ok tt)
    × Mirrors three_events (apply_batch (inventory_projector "inventory") repeated 0 new).1
unfolding running
stock_follows_log_example =
    stock_follows_log "inventory" three_events repeated (refl, (refl, (refl, tt))) (omega arith)
      three_events-Replayable repeated-AtLeastOnce
