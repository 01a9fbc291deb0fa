-- ===== src/Ledger/Service.antt =====
-- internal/ledger/service.go: the command handlers. The five commands on one stream share the retry
-- loop `retry`, which the source writes out in each of them; they differ in what they load, decide
-- and append, which is their `…_proposal`.
pub mod Settle
pub mod Attempt
pub mod Unmoved
pub mod Commit
pub mod Run
pub mod Unhindered
pub mod Contention
pub mod Pinned
pub mod Once
use streamledger.Prelude.{
  ℕ, zero, suc, Bool, true, false, ◌&&◌, Option, none, some, List, [], ◌∷◌, ◌++◌, String, ltb,
  if◌then◌else◌, head?, ℤ, pos, pos_part, leb_ℤ, eqb_ℤ, ◌==◌, string_eq,
}
use Prim.Native.String.{◌++◌ as str_append}
use streamledger.Int64.{add64}
use streamledger.Outcome.{
  Outcome, ok, err, version_conflict, same_account_transfer, index_out_of_range,
  is_version_conflict,
}
use streamledger.Json.{Payload}
use streamledger.EventStore.{AppendEvent, Event, Store, no_version_check, stream_does_not_exist}
use streamledger.Ledger.Events.{
  aggregate_type_account, aggregate_type_inventory_item, event_account_opened,
  event_funds_deposited, event_funds_withdrawn, event_inventory_adjusted, event_stock_reserved,
  event_stock_released, marshal_account_opened, marshal_funds_deposited, marshal_funds_withdrawn,
  marshal_inventory_adjusted, marshal_stock_reserved, marshal_stock_released,
}
use streamledger.Ledger.State.{AccountState, InventoryState, fold_account, fold_inventory}
use streamledger.Ledger.Decide.{
  decide_open_account, decide_deposit, decide_withdraw, decide_adjust_inventory,
  decide_reserve_stock, decide_release_stock,
}
use streamledger.Outcome
use streamledger.Ledger.Command.{
  World, Command, Others, pure, lift, ◌>>=◌, call_load_stream, call_lookup_dedupe, call_append,
}

abbrev pub default_max_retries : ℤ
default_max_retries = pos 8

pub record Result : Type 0 where
  pub applied : Bool
  pub duplicate : Bool
  pub new_version : ℤ

-- `publisher` tells whether there is one; the store is the commands' parameter.
pub record Service : Type 0 where
  pub publisher : Bool
  pub max_retries : ℤ

abbrev pub new_service : Bool → Service
new_service publisher = record { publisher = publisher; max_retries = default_max_retries }

unfoldable pub max_retries : Service → ℤ
max_retries s = if leb_ℤ s.max_retries (pos 0) then default_max_retries else s.max_retries

-- The last event of the stream among those that the key produced gives the version.
unfoldable pub duplicate_version : List Event → String → String → ℤ → ℤ
duplicate_version [] aggregate_type aggregate_id v = v
duplicate_version (e ∷ events) aggregate_type aggregate_id v =
    duplicate_version events aggregate_type aggregate_id (
      if e.aggregate_type == aggregate_type && e.aggregate_id == aggregate_id then e.version else v)

unfoldable pub duplicate_result : List Event → String → String → Result
duplicate_result events aggregate_type aggregate_id = record {
  applied = false;
  duplicate = true;
  new_version = duplicate_version events aggregate_type aggregate_id (pos 0);
}

pub record VersionPlan : Type 0 where
  pub pinned : Bool
  pub pinned_value : ℤ
  pub max_attempts : ℤ

unfoldable pub plan_version : Service → ℤ → VersionPlan
unfolding max_retries
plan_version s expected_version =
    if eqb_ℤ expected_version no_version_check
    then record {
      pinned = false;
      pinned_value = pos 0;
      max_attempts = add64 (max_retries s) (pos 1);
    }
    else record { pinned = true; pinned_value = expected_version; max_attempts = pos 1 }

unfoldable pub expected_version_for : VersionPlan → ℤ → ℤ
expected_version_for p current = if p.pinned then p.pinned_value else current

-- What one attempt decides: the version that it saw, and the event to append.
pub record Proposal : Type 0 where
  pub version : ℤ
  pub event_type : String
  pub payload : Payload

unfoldable pub deposit_proposal : String → ℤ → String → List Event → Outcome Proposal
deposit_proposal account_id amount_cents reason events =
    Outcome.◌>>=◌ (fold_account account_id events) λ current.
      Outcome.◌>>=◌ (decide_deposit current amount_cents reason) λ event. ok (record {
        version = current.version;
        event_type = event_funds_deposited;
        payload = marshal_funds_deposited event;
      })

unfoldable pub withdraw_proposal : String → ℤ → String → List Event → Outcome Proposal
withdraw_proposal account_id amount_cents reason events =
    Outcome.◌>>=◌ (fold_account account_id events) λ current.
      Outcome.◌>>=◌ (decide_withdraw current amount_cents reason) λ event. ok (record {
        version = current.version;
        event_type = event_funds_withdrawn;
        payload = marshal_funds_withdrawn event;
      })

unfoldable pub adjust_inventory_proposal : String → ℤ → String → List Event → Outcome Proposal
adjust_inventory_proposal item_id delta reason events =
    Outcome.◌>>=◌ (fold_inventory item_id events) λ current.
      Outcome.◌>>=◌ (decide_adjust_inventory current item_id delta reason) λ event. ok (record {
        version = current.version;
        event_type = event_inventory_adjusted;
        payload = marshal_inventory_adjusted event;
      })

unfoldable pub reserve_stock_proposal : String → ℤ → String → List Event → Outcome Proposal
reserve_stock_proposal item_id quantity order_id events =
    Outcome.◌>>=◌ (fold_inventory item_id events) λ current.
      Outcome.◌>>=◌ (decide_reserve_stock current item_id quantity order_id) λ event. ok (record {
        version = current.version;
        event_type = event_stock_reserved;
        payload = marshal_stock_reserved event;
      })

unfoldable pub release_stock_proposal : String → ℤ → String → List Event → Outcome Proposal
release_stock_proposal item_id quantity order_id events =
    Outcome.◌>>=◌ (fold_inventory item_id events) λ current.
      Outcome.◌>>=◌ (decide_release_stock current item_id quantity order_id) λ event. ok (record {
        version = current.version;
        event_type = event_stock_released;
        payload = marshal_stock_released event;
      })

module _ {S : Type 0} (ops : Store S) (others : Others S) (svc : Service) where
  unfoldable pub publish : List Event → Command S (Unit {0})
  publish events w = (
    ok tt,
    elim events [
      | [] ↦ w
      | e ∷ rest ↦
          if svc.publisher then record w { published = w.published ++ (e ∷ rest) ∷ [] } else w
    ],
  )

  -- `appended[0].Version`
  unfoldable pub applied_result : List Event → Outcome Result
  applied_result appended = elim (head? appended) [
    | none ↦ err index_out_of_range
    | some e ↦ ok (record { applied = true; duplicate = false; new_version = e.version })
  ]

  -- The dedupe check that opens every handler: the events of an earlier call with this key.
  unfoldable pub processed : String → Command S (Option (List Event))
  processed dedupe_key =
      if dedupe_key == ""
      then pure none
      else (call_lookup_dedupe ops others dedupe_key >>= λ (events, found).
          pure (if found then some events else none))

  -- The end of an attempt: retry, fail, report a duplicate, or publish and report the new version.
  -- `left` attempts remain after this one.
  unfoldable pub settle :
      String → String → ℕ → Command S Result → Outcome (List Event × Bool) → Command S Result
  settle aggregate_type aggregate_id left again (err e) w =
      if is_version_conflict e && ltb 0 left then again w else (err e, w)
  settle aggregate_type aggregate_id left again (ok (appended, dup)) w =
      if dup
      then (ok (duplicate_result appended aggregate_type aggregate_id), w)
      else (publish appended >>= λ _. lift (applied_result appended)) w

  -- The loop of the commands on one stream, with the number of attempts that are left.
  unfoldable pub retry :
      String
      → String
      → String
      → VersionPlan
      → (List Event → Outcome Proposal)
      → ℕ
      → Command S Result
  retry aggregate_type aggregate_id dedupe_key plan propose zero w = (err version_conflict, w)
  retry aggregate_type aggregate_id dedupe_key plan propose (suc left) w =
      let again = retry aggregate_type aggregate_id dedupe_key plan propose left in
      (call_load_stream ops others aggregate_type aggregate_id >>= λ events.
      lift (propose events) >>= λ p.
      call_append ops others dedupe_key (
        record {
          aggregate_type = aggregate_type;
          aggregate_id = aggregate_id;
          event_type = p.event_type;
          payload = p.payload;
          expected_version = expected_version_for plan p.version;
        }
        ∷ [])
      >>= settle aggregate_type aggregate_id left again)
        w

  -- A command on one stream: the dedupe check, then the loop.
  unfoldable pub run_command :
      String → String → String → ℤ → (List Event → Outcome Proposal) → Command S Result
  run_command aggregate_type aggregate_id dedupe_key expected_version propose =
      processed dedupe_key >>= λ prior. elim prior [
        | some events ↦ pure (duplicate_result events aggregate_type aggregate_id)
        | none ↦
            let plan = plan_version svc expected_version in
            retry aggregate_type aggregate_id dedupe_key plan propose (pos_part plan.max_attempts)
      ]

  unfoldable pub deposit : String → ℤ → String → String → ℤ → Command S Result
  deposit account_id amount_cents reason dedupe_key expected_version =
      run_command aggregate_type_account account_id dedupe_key expected_version
        (deposit_proposal account_id amount_cents reason)

  unfoldable pub withdraw : String → ℤ → String → String → ℤ → Command S Result
  withdraw account_id amount_cents reason dedupe_key expected_version =
      run_command aggregate_type_account account_id dedupe_key expected_version
        (withdraw_proposal account_id amount_cents reason)

  unfoldable pub adjust_inventory : String → ℤ → String → String → ℤ → Command S Result
  adjust_inventory item_id delta reason dedupe_key expected_version =
      run_command aggregate_type_inventory_item item_id dedupe_key expected_version
        (adjust_inventory_proposal item_id delta reason)

  unfoldable pub reserve_stock : String → ℤ → String → String → ℤ → Command S Result
  reserve_stock item_id quantity order_id dedupe_key expected_version =
      run_command aggregate_type_inventory_item item_id dedupe_key expected_version
        (reserve_stock_proposal item_id quantity order_id)

  unfoldable pub release_stock : String → ℤ → String → String → ℤ → Command S Result
  release_stock item_id quantity order_id dedupe_key expected_version =
      run_command aggregate_type_inventory_item item_id dedupe_key expected_version
        (release_stock_proposal item_id quantity order_id)

  unfoldable pub open_account : String → ℤ → String → Command S Result
  open_account account_id initial_balance_cents dedupe_key = processed dedupe_key >>= λ prior.
      elim prior [
        | some events ↦ pure (duplicate_result events aggregate_type_account account_id)
        | none ↦ call_load_stream ops others aggregate_type_account account_id >>= λ events.
            lift (fold_account account_id events) >>= λ current.
            lift (decide_open_account current account_id initial_balance_cents) >>= λ event.
            call_append ops others dedupe_key (
              record {
                aggregate_type = aggregate_type_account;
                aggregate_id = account_id;
                event_type = event_account_opened;
                payload = marshal_account_opened event;
                expected_version = stream_does_not_exist;
              }
              ∷ [])
            >>= settle aggregate_type_account account_id 0 (lift (err version_conflict))
      ]

  -- The loop of `Transfer`.
  unfoldable pub transfer_retry : String → String → ℤ → String → String → ℕ → Command S Result
  transfer_retry from_account_id to_account_id amount_cents reason dedupe_key zero w =
      (err version_conflict, w)
  transfer_retry from_account_id to_account_id amount_cents reason dedupe_key (suc left) w =
      let again =
        transfer_retry from_account_id to_account_id amount_cents reason dedupe_key left in
      (call_load_stream ops others aggregate_type_account from_account_id >>= λ from_events.
      lift (fold_account from_account_id from_events) >>= λ from.
      call_load_stream ops others aggregate_type_account to_account_id >>= λ to_events.
      lift (fold_account to_account_id to_events) >>= λ to.
      lift (decide_withdraw from amount_cents reason) >>= λ withdraw_event.
      lift (decide_deposit to amount_cents reason) >>= λ deposit_event.
      call_append ops others dedupe_key (
        record {
          aggregate_type = aggregate_type_account;
          aggregate_id = from_account_id;
          event_type = event_funds_withdrawn;
          payload = marshal_funds_withdrawn withdraw_event;
          expected_version = from.version;
        }
        ∷ record {
          aggregate_type = aggregate_type_account;
          aggregate_id = to_account_id;
          event_type = event_funds_deposited;
          payload = marshal_funds_deposited deposit_event;
          expected_version = to.version;
        }
        ∷ [])
      >>= settle aggregate_type_account from_account_id left again)
        w

  unfoldable pub transfer : String → String → ℤ → String → Command S Result
  transfer from_account_id to_account_id amount_cents dedupe_key =
      if from_account_id == to_account_id
      then lift (err same_account_transfer)
      else (processed dedupe_key >>= λ prior. elim prior [
        | some events ↦ pure (duplicate_result events aggregate_type_account from_account_id)
        | none ↦
            transfer_retry from_account_id to_account_id amount_cents
              (str_append "transfer:" dedupe_key) dedupe_key (suc (pos_part (max_retries svc)))
      ])
