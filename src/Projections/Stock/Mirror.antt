-- ===== src/Projections/Stock/Mirror.antt =====
-- The inventory views of the read side and the folds of the write side.
use streamledger.Prelude.{
  ◌<◌, ◌^◌, ◌≡◌, ◌≢◌, refl, sym, ap, ◌∙◌, inl, inr, Bool, true, false, Bool-cases, List, [], ◌∷◌,
  ◌++◌, String, arith, if◌then◌else◌, length, ◌==◌, string_eq, eq_iff, insert, lookup,
  lookup-insert, select-append,
}
use streamledger.Outcome.{ok, ◌>>=◌, >>=-eq-ok, >>=-ok, Outcome-cases}
use streamledger.EventStore.{Event, StreamKey, stream_key_eq, key_of, stream}
use streamledger.EventStore.Numbering.{Numbered}
use streamledger.EventStore.Streams.{stream-snoc_self, stream-snoc_ne}
use streamledger.Ledger.Events.{aggregate_type_inventory_item}
use streamledger.Ledger.State.{
  InventoryState, apply_inventory, fold_inventory, fold_inventory_from, zero_inventory,
}
use streamledger.Projections.{InventoryView}
use streamledger.Projections.Appliers.{inventory_relevant, inventory_apply}
use streamledger.Projections.Memory.{ReadModels, new, read_models}
use streamledger.Projections.Projector.{Projector, inventory_applier, apply_relevant, apply_batch}
use streamledger.Projections.Redelivery.{projector, AtLeastOnce}
use streamledger.Projections.Showing.{Shown, follow_log}
use streamledger.Projections.Stock.{
  item_key, item_of, Shows, changed, inventory_change-fold, inventory_apply-fold,
  inventory_apply-KeepsCheckpoints,
}

-- The views show every item that the log folds to.
abbrev pub Mirrors : List Event → ReadModels → Type 0
Mirrors log s =
    (id : String) (st : InventoryState)
    → fold_inventory id (stream (item_key id) log) ≡ ok st
    → Shows (item_of id s) st

-- Every item's events can be replayed.
abbrev pub Replayable : List Event → Type 0
Replayable log =
    (id : String) → (st : InventoryState) × (fold_inventory id (stream (item_key id) log) ≡ ok st)

fold_inventory_from-prefix :
    (st : InventoryState) (xs ys : List Event) {end : InventoryState}
    → fold_inventory_from st (xs ++ ys) ≡ ok end
    → (middle : InventoryState) × (fold_inventory_from st xs ≡ ok middle)
unfolding fold_inventory_from
fold_inventory_from-prefix st [] ys h = (st, refl)
fold_inventory_from-prefix st (x ∷ xs) ys h =
    let (st', p, q) = >>=-eq-ok (apply_inventory st x) (λ s. fold_inventory_from s (xs ++ ys)) h in
    let (middle, r) = fold_inventory_from-prefix st' xs ys q in (middle, rw p r)

Replayable-prefix : (xs ys : List Event) → Replayable (xs ++ ys) → Replayable xs
unfolding fold_inventory
Replayable-prefix xs ys h id =
    fold_inventory_from-prefix (zero_inventory id) (stream (item_key id) xs)
      (stream (item_key id) ys)
      (rw (select-append (λ e. key_of e == item_key id) xs ys) at (h id).1)

fold_inventory_from-snoc :
    (st : InventoryState) (events : List Event) (e : Event)
    → fold_inventory_from st (events ++ e ∷ [])
      ≡ (fold_inventory_from st events >>= λ st'. apply_inventory st' e)
unfolding fold_inventory_from
fold_inventory_from-snoc st [] e = >>=-ok (apply_inventory st e)
fold_inventory_from-snoc st (x ∷ events) e = elim (Outcome-cases (apply_inventory st x)) [
  | inl (st', q) ↦ rw q (fold_inventory_from-snoc st' events e)
  | inr (x, q) ↦ rw q refl
]

-- The events of an item up to one of its own: the fold before it, and the turn that it takes.
last_turn :
    (done : List Event) (e : Event)
    → e.aggregate_type ≡ aggregate_type_inventory_item
    → Replayable (done ++ e ∷ [])
    → (st st' : InventoryState) × (fold_inventory e.aggregate_id
          (stream (item_key e.aggregate_id) done)
        ≡ ok st)
      × (apply_inventory st e ≡ ok st')
      × (fold_inventory e.aggregate_id (stream (item_key e.aggregate_id) (done ++ e ∷ [])) ≡ ok st')
unfolding fold_inventory
last_turn done e t able =
    let id = e.aggregate_id in
    let k : key_of e ≡ item_key id = rw t refl in
    let (st', f) = able id in
    let split = fold_inventory_from-snoc (zero_inventory id) (stream (item_key id) done) e in
    let g : (fold_inventory id (stream (item_key id) done) >>= λ st. apply_inventory st e)
        ≡ ok st' =
      sym split ∙ ap (fold_inventory id) (sym (stream-snoc_self (item_key id) done e k)) ∙ f in
    let (st, p, q) =
      >>=-eq-ok (fold_inventory id (stream (item_key id) done)) (λ st. apply_inventory st e) g in
    (st, st', p, q, f)

item_of-insert :
    (i j : String) (view : InventoryView) (s : ReadModels)
    → item_of j (record s { inventory = insert i view s.inventory })
      ≡ (if i == j then view else item_of j s)
item_of-insert i j view s = ground (arith, lookup-insert i j view s.inventory)

-- One inventory event, relevant and foldable, is mirrored.
Mirrors-apply :
    (done : List Event) (e : Event) (s : ReadModels)
    → e.aggregate_type ≡ aggregate_type_inventory_item
    → Replayable (done ++ e ∷ [])
    → Mirrors done s
    → ((inventory_apply read_models e s).0 ≡ ok tt)
      × Mirrors (done ++ e ∷ []) (inventory_apply read_models e s).1
Mirrors-apply done e s t able h =
    let (st, st', p, q, f) = last_turn done e t able in
    let i = e.aggregate_id in
    let before = h i st p in
    let step = inventory_apply-fold e s st st' before q in
    let version = (inventory_change-fold (item_of i s) st st' e before.0 before.1 q).1 in
    (
      ap (λ x. x.0) step,
      λ j st″ g. rw step (elim (Bool-cases (i == j)) [
        | inl same ↦
            let g' : fold_inventory i (stream (item_key i) (done ++ e ∷ [])) ≡ ok st″ =
              ap (λ x. fold_inventory x (stream (item_key x) (done ++ e ∷ [])))
                ((eq_iff i j).0 same)
              ∙ g in
            let end : st″ ≡ st' = cc in
            rw (item_of-insert i j (changed e st') s, same, end) (refl, refl, sym version)
        | inr other ↦
            let apart : key_of e ≢ item_key j =
              λ r. ground (arith, eq_iff i j, ap (λ (x : StreamKey). x.aggregate_id) r) in
            rw (item_of-insert i j (changed e st') s, other)
              (h j st″ (rw (stream-snoc_ne (item_key j) done e apart) at g))
      ]),
    )

-- An event of another kind adds nothing to mirror.
Mirrors-skip :
    (done : List Event) (e : Event) (s : ReadModels)
    → e.aggregate_type ≢ aggregate_type_inventory_item
    → Mirrors done s
    → Mirrors (done ++ e ∷ []) s
Mirrors-skip done e s t h j st g =
    let apart : key_of e ≢ item_key j = λ r. t (ap (λ (x : StreamKey). x.aggregate_type) r) in
    h j st (rw (stream-snoc_ne (item_key j) done e apart) at g)

Mirrors-new : Mirrors [] new
unfolding lookup fold_inventory fold_inventory_from
Mirrors-new id st q = ground arith

module _ (name : String) where
  abbrev pub inventory_projector : Projector ReadModels
  inventory_projector = projector name (inventory_applier read_models)

  relevant-Mirrors :
      (done : List Event) (e : Event) (s : ReadModels)
      → Replayable (done ++ e ∷ [])
      → Mirrors done s
      → (hit : Bool) × ((apply_relevant inventory_projector e s).0 ≡ ok hit)
        × Mirrors (done ++ e ∷ []) (apply_relevant inventory_projector e s).1
  unfolding apply_relevant inventory_relevant
  relevant-Mirrors done e s able h = elim (Bool-cases (inventory_relevant e)) [
    | inl relevant ↦
        let m =
          Mirrors-apply done e s
            ((eq_iff e.aggregate_type aggregate_type_inventory_item).0 relevant) able h in
        (true, rw (relevant, m.0), rw (relevant, m.0) m.1)
    | inr other ↦
        let apart : e.aggregate_type ≢ aggregate_type_inventory_item =
          λ r. ground (arith, eq_iff e.aggregate_type aggregate_type_inventory_item) in
        (false, rw other, rw other (Mirrors-skip done e s apart h))
  ]

  abbrev shown : Shown name (inventory_applier read_models)
  shown = record {
    Mirrors = Mirrors;
    Replayable = Replayable;
    prefix = Replayable-prefix;
    relevant = relevant-Mirrors;
    beside = λ log s checkpoints h. h;
    fresh = Mirrors-new;
  }

  -- A log of less than 2^63 events in which every item can be replayed, delivered at least once and
  -- in order to a projector of the inventory on empty views, is applied without an error, and then
  -- the view of every item has the quantities and the version of the item's fold.
  pub stock_follows_log :
      (log deliveries : List Event)
      → Numbered (λ e. e.global_seq) 0 log
      → length log < 2 ^ 63
      → Replayable log
      → AtLeastOnce 0 log deliveries
      → ((apply_batch inventory_projector deliveries 0 new).0.1 ≡ ok tt)
        × Mirrors log (apply_batch inventory_projector deliveries 0 new).1
  stock_follows_log =
      follow_log name (inventory_applier read_models) (inventory_apply-KeepsCheckpoints name) shown
