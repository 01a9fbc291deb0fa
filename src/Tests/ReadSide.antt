-- ===== src/Tests/ReadSide.antt =====
-- The read side at concrete inputs: the log of the store with two accounts, delivered with repeats.
use streamledger.Prelude.{
  lookup, ◌++◌, true, false, some, length, ◌<◌, ◌^◌, ◌≡◌, refl, sym, inl, inr, Bool-cases, List, [],
  ◌∷◌, arith, ◌==◌, string_eq, eq_iff, pos,
}
use streamledger.Outcome.{ok}
use streamledger.EventStore.{Event}
use streamledger.Ledger.Events.{event_account_opened, marshal_account_opened}
use streamledger.Ledger.State.{zero_account}
use streamledger.Projections.Appliers.{account_relevant, account_change, account_apply}
use streamledger.Projections.Memory.{
  new, read_models, get_account, upsert_account, get_checkpoint, set_checkpoint, with_tx,
}
use streamledger.Projections.Projector.{
  account_applier, apply_event, apply_body, apply_relevant, apply_batch, lag,
}
use streamledger.Projections.Redelivery.{AtLeastOnce, delivered, next, again, deliver_again}
use streamledger.Projections.Mirror.{
  Mirrors, Replayable, accounts_projector, account_apply-KeepsCheckpoints, views_follow_log,
  Mirrors-new,
}
use streamledger.Projections.CatchUp.{Caught, catch_up-Caught}
use streamledger.GrpcServer.{GetBalanceResponse, get_balance, answer}
use streamledger.GrpcServer.Queries.{get_balance-fold}
use streamledger.Bus.{duplicating_publish, hand_out, hand_out_all, publish_in, subscribe}
use streamledger.Projections.Behind.{lag_exact}
use streamledger.Startup.Following.{started, delivered as delivered_later, start-Mirrors}
use streamledger.Bus.Duplicates.{publish_once, duplicates_absorbed}
use streamledger.Tests.World.{two_accounts, two_accounts-IsValid, clock, running}

abbrev pub opened_a : Event
opened_a = record {
  global_seq = pos 1;
  aggregate_type = "account";
  aggregate_id = "a";
  version = pos 1;
  event_type = event_account_opened;
  payload = marshal_account_opened (record { account_id = "a"; initial_balance_cents = pos 100 });
  metadata = record { dedupe_key = "k1"; correlation_id = "" };
  created_at = clock 0;
}

abbrev pub opened_b : Event
opened_b = record {
  global_seq = pos 2;
  aggregate_type = "account";
  aggregate_id = "b";
  version = pos 1;
  event_type = event_account_opened;
  payload = marshal_account_opened (record { account_id = "b"; initial_balance_cents = pos 50 });
  metadata = record { dedupe_key = "k2"; correlation_id = "" };
  created_at = clock 1;
}

abbrev two_events : List Event
two_events = opened_a ∷ opened_b ∷ []

two_accounts-events : two_accounts.store.events ≡ two_events
unfolding running
two_accounts-events = refl

abbrev pub repeated : List Event
repeated = opened_a ∷ opened_a ∷ opened_b ∷ opened_a ∷ []

repeated-AtLeastOnce : AtLeastOnce 0 two_events repeated
unfolding running
repeated-AtLeastOnce = next opened_a (
    again opened_a 1 (omega arith) refl
      (next opened_b (again opened_a 1 (omega arith) refl delivered)))

two_events-Replayable : Replayable two_events
unfolding running
two_events-Replayable id = elim (Bool-cases ("a" == id)) [
  | inl a ↦ rw (sym ((eq_iff "a" id).0 a)) (_, refl)
  | inr not_a ↦ elim (Bool-cases ("b" == id)) [
    | inl b ↦ rw (sym ((eq_iff "b" id).0 b)) (_, refl)
    | inr not_b ↦ (zero_account id, rw (not_a, not_b))
  ]
]

stored-small : length two_accounts.store.events < 2 ^ 63
unfolding running
stored-small = omega arith

stored-Replayable : Replayable two_accounts.store.events
stored-Replayable = rw two_accounts-events two_events-Replayable

deliver_again_example :
    apply_batch (accounts_projector "balances") repeated 0 new
    ≡ apply_batch (accounts_projector "balances") two_events 0 new
unfolding running
deliver_again_example =
    deliver_again "balances" (account_applier read_models)
      (account_apply-KeepsCheckpoints "balances") 0 two_events repeated 0 new repeated-AtLeastOnce
      (refl, (refl, tt)) (omega arith) refl

views_follow_log_example :
    ((apply_batch (accounts_projector "balances") repeated 0 new).0.1 ≡ ok tt)
    × Mirrors two_events (apply_batch (accounts_projector "balances") repeated 0 new).1
unfolding running
views_follow_log_example =
    views_follow_log "balances" two_events repeated (refl, (refl, tt)) (omega arith)
      two_events-Replayable repeated-AtLeastOnce

duplicates_absorbed_example :
    duplicating_publish
      (publish_once "balances" (account_applier read_models))
      (pos 3)
      two_events
      new
    ≡ (ok tt, (publish_once "balances" (account_applier read_models) two_events new).1)
unfolding running hand_out hand_out_all publish_in subscribe apply_event apply_body apply_relevant
    with_tx get_checkpoint set_checkpoint get_account upsert_account account_relevant account_change
    account_apply
duplicates_absorbed_example =
    duplicates_absorbed "balances" (account_applier read_models)
      (account_apply-KeepsCheckpoints "balances") (pos 3) 0 two_events new (refl, (refl, tt))
      (omega arith) refl refl

-- From nothing, one event at a time.
catch_up-Caught_example :
    Caught "balances" two_accounts.store two_accounts-IsValid.counted stored-small stored-Replayable
      (pos 1)
      3
      0
      new
unfolding running
catch_up-Caught_example =
    catch_up-Caught "balances" two_accounts.store two_accounts-IsValid.counted stored-small
      stored-Replayable (pos 1) 3 0 [] two_accounts.store.events new refl Mirrors-new refl
      (omega arith)

get_balance-fold_example :
    (res : GetBalanceResponse) × (get_balance read_models "a"
        (apply_batch (accounts_projector "balances") repeated 0 new).1
      ≡ answer res)
    × (res.account_id ≡ "a")
    × (res.found ≡ true)
    × (res.balance_cents ≡ pos 100)
    × (res.version ≡ pos 1)
unfolding running get_balance
get_balance-fold_example =
    get_balance-fold "balances" two_events repeated "a"
      (record { account_id = "a"; version = pos 1; opened = true; balance_cents = pos 100 })
      (refl, (refl, tt)) (omega arith) two_events-Replayable repeated-AtLeastOnce
      (λ h. let b : false ≡ true = (eq_iff "a" "").1 h in cc) refl

abbrev opened_c : Event
opened_c = record {
  global_seq = pos 3;
  aggregate_type = "account";
  aggregate_id = "c";
  version = pos 1;
  event_type = event_account_opened;
  payload = marshal_account_opened (record { account_id = "c"; initial_balance_cents = pos 70 });
  metadata = record { dedupe_key = "k3"; correlation_id = "" };
  created_at = clock 2;
}

three_events-Replayable : Replayable (two_events ++ opened_c ∷ [])
unfolding running
three_events-Replayable id = elim (Bool-cases ("a" == id)) [
  | inl a ↦ rw (sym ((eq_iff "a" id).0 a)) (_, refl)
  | inr not_a ↦ elim (Bool-cases ("b" == id)) [
    | inl b ↦ rw (sym ((eq_iff "b" id).0 b)) (_, refl)
    | inr not_b ↦ elim (Bool-cases ("c" == id)) [
      | inl c ↦ rw (sym ((eq_iff "c" id).0 c)) (_, refl)
      | inr not_c ↦ (zero_account id, rw (not_a, not_b, not_c))
    ]
  ]
]

-- The program's start on empty views; a third account is opened afterwards.
start-Mirrors_example :
    ((started "balances" two_accounts.store two_accounts-IsValid.counted stored-small
        stored-Replayable 3 new).0
      ≡ some (ok tt))
    × Mirrors two_accounts.store.events
        (started "balances" two_accounts.store two_accounts-IsValid.counted stored-small
          stored-Replayable 3 new).1.1
    × ((delivered_later "balances" two_accounts.store two_accounts-IsValid.counted stored-small
          stored-Replayable 3 new
          (opened_c ∷ [])).0
        ≡ ok tt)
    × Mirrors
        (two_accounts.store.events ++ opened_c ∷ [])
        (delivered_later "balances" two_accounts.store two_accounts-IsValid.counted stored-small
          stored-Replayable 3 new
          (opened_c ∷ [])).1
unfolding running
start-Mirrors_example =
    start-Mirrors "balances" two_accounts.store two_accounts-IsValid.counted stored-small
      stored-Replayable 3 [] two_accounts.store.events (opened_c ∷ []) new refl Mirrors-new refl
      (omega arith) (omega arith) three_events-Replayable (refl, tt)

lag_exact_example : lag (accounts_projector "balances") (pos 2) new ≡ (ok (pos 2), new)
unfolding get_checkpoint lookup
lag_exact_example =
    lag_exact (accounts_projector "balances") 2 0 new (omega arith) (omega arith) refl
