-- ===== src/Ledger/Inventory.antt =====
-- Inventory items: what an accepted decision does to the folded state.
use streamledger.Prelude.{
  ◌≡◌, inl, inr, List, [], ◌∷◌, ◌++◌, String, arith, ℤ, pos, ◌+ℤ◌, ◌-ℤ◌, ◌≤ℤ◌, ◌<ℤ◌, int_laws,
  +ℤ_parts,
}
use streamledger.Int64.{IsInt64, add64, sub64, add64_exact, sub64_exact, IsInt64-sub}
use streamledger.Outcome.{ok, ◌>>=◌, >>=-ok, Outcome-cases}
use streamledger.EventStore.{Event}
use streamledger.Ledger.Events.{
  InventoryAdjusted, StockReserved, StockReleased, event_inventory_adjusted, event_stock_reserved,
  event_stock_released, marshal_inventory_adjusted, marshal_stock_reserved, marshal_stock_released,
}
use streamledger.Ledger.Events.Codec.{
  unmarshal-marshal_inventory_adjusted, unmarshal-marshal_stock_reserved,
  unmarshal-marshal_stock_released,
}
use streamledger.Ledger.State.{
  InventoryState, zero_inventory, apply_inventory, fold_inventory_from, fold_inventory,
}
use streamledger.Ledger.Decide.{decide_adjust_inventory, decide_reserve_stock, decide_release_stock}

fold_inventory_from-snoc :
    (st : InventoryState) (events : List Event) (e : Event)
    → fold_inventory_from st (events ++ e ∷ [])
      ≡ (fold_inventory_from st events >>= λ st'. apply_inventory st' e)
unfolding fold_inventory_from
fold_inventory_from-snoc st [] e = >>=-ok (apply_inventory st e)
fold_inventory_from-snoc st (x ∷ events) e = elim (Outcome-cases (apply_inventory st x)) [
  | inl (st', q) ↦ rw q (fold_inventory_from-snoc st' events e)
  | inr (_, q) ↦ rw q
]

-- One more event is one more turn of the fold.
pub fold_inventory-snoc :
    (id : String) (events : List Event) (e : Event)
    → fold_inventory id (events ++ e ∷ [])
      ≡ (fold_inventory id events >>= λ st. apply_inventory st e)
unfolding fold_inventory
fold_inventory-snoc id = fold_inventory_from-snoc (zero_inventory id)

-- Quantities that an item may have: int64 values that are not negative.
abbrev pub IsStocked : InventoryState → Type 0
IsStocked st =
    (pos 0 ≤ℤ st.available_quantity)
    × IsInt64 st.available_quantity
    × (pos 0 ≤ℤ st.reserved_quantity)
    × IsInt64 st.reserved_quantity

-- The event was decided from this state by one of the three inventory rules, and stored. What is
-- added has room: the sum is still an int64.
pub data Decided (st : InventoryState) (e : Event) : Type 0 where
  adjusts :
      (id : String) (delta : ℤ) (reason : String) (p : InventoryAdjusted)
      → IsInt64 delta
      → IsInt64 (st.available_quantity +ℤ delta)
      → decide_adjust_inventory st id delta reason ≡ ok p
      → e.event_type ≡ event_inventory_adjusted
      → e.payload ≡ marshal_inventory_adjusted p
      → Decided st e
  reserves :
      (id : String) (quantity : ℤ) (order_id : String) (p : StockReserved)
      → IsInt64 (st.reserved_quantity +ℤ quantity)
      → decide_reserve_stock st id quantity order_id ≡ ok p
      → e.event_type ≡ event_stock_reserved
      → e.payload ≡ marshal_stock_reserved p
      → Decided st e
  releases :
      (id : String) (quantity : ℤ) (order_id : String) (p : StockReleased)
      → IsInt64 (st.available_quantity +ℤ quantity)
      → decide_release_stock st id quantity order_id ≡ ok p
      → e.event_type ≡ event_stock_released
      → e.payload ≡ marshal_stock_released p
      → Decided st e

-- An accepted adjustment leaves a quantity that is not negative.
decide_adjust_inventory-ok :
    (st : InventoryState) (id : String) (delta : ℤ) (reason : String) (p : InventoryAdjusted)
    → pos 0 ≤ℤ st.available_quantity
    → IsInt64 (st.available_quantity +ℤ delta)
    → decide_adjust_inventory st id delta reason ≡ ok p
    → (pos 0 ≤ℤ st.available_quantity +ℤ delta) × (p.delta_quantity ≡ delta)
unfolding decide_adjust_inventory
decide_adjust_inventory-ok st id delta reason p h room d =
    ground
      (arith, add64_exact st.available_quantity delta room, +ℤ_parts st.available_quantity delta)

decide_reserve_stock-ok :
    (st : InventoryState) (id : String) (quantity : ℤ) (order_id : String) (p : StockReserved)
    → decide_reserve_stock st id quantity order_id ≡ ok p
    → (pos 0 <ℤ quantity) × (quantity ≤ℤ st.available_quantity) × (p.quantity ≡ quantity)
unfolding decide_reserve_stock
decide_reserve_stock-ok st id quantity order_id p d = ground arith

decide_release_stock-ok :
    (st : InventoryState) (id : String) (quantity : ℤ) (order_id : String) (p : StockReleased)
    → decide_release_stock st id quantity order_id ≡ ok p
    → (pos 0 <ℤ quantity) × (quantity ≤ℤ st.reserved_quantity) × (p.quantity ≡ quantity)
unfolding decide_release_stock
decide_release_stock-ok st id quantity order_id p d = ground arith

-- The state after a decided event.
abbrev pub after : {st : InventoryState} {e : Event} → Decided st e → InventoryState
after {st} {e} (adjusts id delta reason p fits room d t c) = record st {
  version = e.version;
  available_quantity = st.available_quantity +ℤ delta;
}
after {st} {e} (reserves id quantity order_id p room d t c) = record st {
  version = e.version;
  available_quantity = st.available_quantity -ℤ quantity;
  reserved_quantity = st.reserved_quantity +ℤ quantity;
}
after {st} {e} (releases id quantity order_id p room d t c) = record st {
  version = e.version;
  available_quantity = st.available_quantity +ℤ quantity;
  reserved_quantity = st.reserved_quantity -ℤ quantity;
}

module _ (st : InventoryState) (e : Event) where
  apply_inventory-adjusted :
      (p : InventoryAdjusted)
      → IsInt64 p.delta_quantity
      → e.event_type ≡ event_inventory_adjusted
      → e.payload ≡ marshal_inventory_adjusted p
      → apply_inventory st e
        ≡ ok (record st {
          version = e.version;
          available_quantity = add64 st.available_quantity p.delta_quantity;
        })
  unfolding apply_inventory
  apply_inventory-adjusted p h t c = rw (t, c) (rw (unmarshal-marshal_inventory_adjusted p h))

  apply_inventory-reserved :
      (p : StockReserved)
      → IsInt64 p.quantity
      → e.event_type ≡ event_stock_reserved
      → e.payload ≡ marshal_stock_reserved p
      → apply_inventory st e
        ≡ ok (record st {
          version = e.version;
          available_quantity = sub64 st.available_quantity p.quantity;
          reserved_quantity = add64 st.reserved_quantity p.quantity;
        })
  unfolding apply_inventory
  apply_inventory-reserved p h t c = rw (t, c) (rw (unmarshal-marshal_stock_reserved p h))

  apply_inventory-released :
      (p : StockReleased)
      → IsInt64 p.quantity
      → e.event_type ≡ event_stock_released
      → e.payload ≡ marshal_stock_released p
      → apply_inventory st e
        ≡ ok (record st {
          version = e.version;
          available_quantity = add64 st.available_quantity p.quantity;
          reserved_quantity = sub64 st.reserved_quantity p.quantity;
        })
  unfolding apply_inventory
  apply_inventory-released p h t c = rw (t, c) (rw (unmarshal-marshal_stock_released p h))

-- From a stocked state, an event that one of the inventory rules decided, and that leaves room for
-- the sums, is decoded, moves the quantities by exactly its amount, and leaves neither negative.
pub Decided-IsStocked :
    {st : InventoryState} {e : Event} (d : Decided st e)
    → IsStocked st
    → (apply_inventory st e ≡ ok (after d)) × IsStocked (after d)
Decided-IsStocked {st} {e} (adjusts id delta reason p fits room d t c) h =
    let k = decide_adjust_inventory-ok st id delta reason p h.0 room d in
    (
      ground (
        arith,
        apply_inventory-adjusted st e p (rw k.1 fits) t c,
        add64_exact st.available_quantity delta room,
      ),
      (k.0, room, h.2, h.3),
    )
Decided-IsStocked {st} {e} (reserves id quantity order_id p room d t c) h =
    let k = decide_reserve_stock-ok st id quantity order_id p d in
    let left = IsInt64-sub st.available_quantity quantity h.1 (omega arith) k.1 in
    (
      ground (
        arith,
        apply_inventory-reserved st e p (rw k.2 left.0) t c,
        add64_exact st.reserved_quantity quantity room,
        sub64_exact st.available_quantity quantity left.1,
      ),
      (left.2, left.1, omega int_laws, room),
    )
Decided-IsStocked {st} {e} (releases id quantity order_id p room d t c) h =
    let k = decide_release_stock-ok st id quantity order_id p d in
    let left = IsInt64-sub st.reserved_quantity quantity h.3 (omega arith) k.1 in
    (
      ground (
        arith,
        apply_inventory-released st e p (rw k.2 left.0) t c,
        add64_exact st.available_quantity quantity room,
        sub64_exact st.reserved_quantity quantity left.1,
      ),
      (omega int_laws, room, left.2, left.1),
    )
