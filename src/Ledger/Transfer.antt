-- ===== src/Ledger/Transfer.antt =====
-- The turns of the loop of `Transfer` (internal/ledger/service.go), case by case.
pub mod Legs
pub mod Commit
use streamledger.Prelude.{
  ℕ, zero, suc, ◌^◌, ◌<◌, ◌≡◌, ◌⊎◌, inl, inr, refl, Bool, List, [], ◌∷◌, String, ℤ,
}
use streamledger.Outcome.{Error, Outcome, ok, err, Outcome-cases}
use streamledger.EventStore.{AppendEvent, Event, Store}
use streamledger.Ledger.Command.{World, Others, arrive, call_load_stream, call_append}
use streamledger.Ledger.Interleaving.{Waits, here, next}
use streamledger.Ledger.Events.{
  FundsDeposited, FundsWithdrawn, aggregate_type_account, event_funds_deposited,
  event_funds_withdrawn, marshal_funds_deposited, marshal_funds_withdrawn,
}
use streamledger.Ledger.State.{AccountState, fold_account}
use streamledger.Ledger.Decide.{decide_deposit, decide_withdraw}
use streamledger.Ledger.Service.{Result, Service, settle, transfer_retry}

-- The two events that an attempt appends.
abbrev pub legs :
    String
    → String
    → AccountState
    → AccountState
    → FundsWithdrawn
    → FundsDeposited
    → List AppendEvent
legs from_id to_id from to taken given =
    record {
      aggregate_type = aggregate_type_account;
      aggregate_id = from_id;
      event_type = event_funds_withdrawn;
      payload = marshal_funds_withdrawn taken;
      expected_version = from.version;
    }
    ∷ record {
      aggregate_type = aggregate_type_account;
      aggregate_id = to_id;
      event_type = event_funds_deposited;
      payload = marshal_funds_deposited given;
      expected_version = to.version;
    }
    ∷ []

module _ {S : Type 0} (ops : Store S) (others : Others S) (svc : Service) (from_id to_id : String)
    (amount : ℤ) (reason d : String) (left : ℕ) (w : World S) where
  abbrev at₁ : World S
  at₁ = arrive others w

  abbrev at₂ : World S
  at₂ = arrive others at₁

  abbrev at₃ : World S
  at₃ = arrive others at₂

  abbrev attempt : Outcome Result × World S
  attempt = transfer_retry ops others svc from_id to_id amount reason d (suc left) w

  abbrev pub load : String → World S → Outcome (List Event)
  load id v = ops.load_stream aggregate_type_account id v.store

  -- the attempt ends before its append
  abbrev pub Stops : Type 0
  Stops = (x : Error) × (v : World S) × (attempt ≡ (err x, v)) × Waits others w v

  -- both accounts were read, in this order, and both rules accept
  pub record Proceeds : Type 0 where
    pub from_events : List Event
    pub from_loaded : load from_id at₁ ≡ ok from_events
    pub from : AccountState
    pub from_folded : fold_account from_id from_events ≡ ok from
    pub to_events : List Event
    pub to_loaded : load to_id at₂ ≡ ok to_events
    pub to : AccountState
    pub to_folded : fold_account to_id to_events ≡ ok to
    pub taken : FundsWithdrawn
    pub withdraw_accepted : decide_withdraw from amount reason ≡ ok taken
    pub given : FundsDeposited
    pub deposit_accepted : decide_deposit to amount reason ≡ ok given
    pub goes_on :
        attempt
        ≡ settle ops others svc aggregate_type_account from_id left
            (transfer_retry ops others svc from_id to_id amount reason d left)
            (ops.append d (legs from_id to_id from to taken given) at₃.store).0
            (record at₃ {
              store = (ops.append d (legs from_id to_id from to taken given) at₃.store).1;
            })

  one : Waits others w at₁
  one = next here refl

  two : Waits others w at₂
  two = next one refl

  -- with both accounts read, the rules decide
  decided_cases :
      (es₁ es₂ : List Event) (st₁ st₂ : AccountState)
      → load from_id at₁ ≡ ok es₁
      → fold_account from_id es₁ ≡ ok st₁
      → load to_id at₂ ≡ ok es₂
      → fold_account to_id es₂ ≡ ok st₂
      → Stops ⊎ Proceeds
  unfolding transfer_retry call_load_stream call_append
  decided_cases es₁ es₂ st₁ st₂ l₁ f₁ l₂ f₂ =
      elim (Outcome-cases (decide_withdraw st₁ amount reason)) [
        | inr (x, e) ↦ inl (x, at₂, rw (l₁, f₁, l₂, f₂, e), two)
        | inl (taken, t) ↦ elim (Outcome-cases (decide_deposit st₂ amount reason)) [
          | inr (x, e) ↦ inl (x, at₂, rw (l₁, f₁, l₂, f₂, t, e), two)
          | inl (given, g) ↦ inr (record {
            from_events = es₁;
            from_loaded = l₁;
            from = st₁;
            from_folded = f₁;
            to_events = es₂;
            to_loaded = l₂;
            to = st₂;
            to_folded = f₂;
            taken = taken;
            withdraw_accepted = t;
            given = given;
            deposit_accepted = g;
            goes_on = rw (l₁, f₁, l₂, f₂, t, g);
          })
        ]
      ]

  -- How an attempt goes, up to its append.
  pub attempt_cases : Stops ⊎ Proceeds
  unfolding transfer_retry call_load_stream call_append
  attempt_cases = elim (Outcome-cases (load from_id at₁)) [
    | inr (x, e) ↦ inl (x, at₁, rw e, one)
    | inl (es₁, l₁) ↦ elim (Outcome-cases (fold_account from_id es₁)) [
      | inr (x, e) ↦ inl (x, at₁, rw (l₁, e), one)
      | inl (st₁, f₁) ↦ elim (Outcome-cases (load to_id at₂)) [
        | inr (x, e) ↦ inl (x, at₂, rw (l₁, f₁, e), two)
        | inl (es₂, l₂) ↦ elim (Outcome-cases (fold_account to_id es₂)) [
          | inr (x, e) ↦ inl (x, at₂, rw (l₁, f₁, l₂, e), two)
          | inl (st₂, f₂) ↦ decided_cases es₁ es₂ st₁ st₂ l₁ f₁ l₂ f₂
        ]
      ]
    ]
  ]
