-- ===== src/Tests/Witnesses.antt =====
-- The main theorems at concrete inputs.
use streamledger.Prelude.{
  List, eq_iff, true, false, ◌≡◌, ◌⊎◌, refl, arith, true, [], ◌∷◌, ℤ, pos, negsuc, ◌<ℤ◌, ◌≤ℤ◌,
}
use streamledger.Int64.{int64, add64, sub64}
use streamledger.Outcome.{ok, err, version_conflict, insufficient_funds}
use streamledger.EventStore.{Event, no_version_check}
use streamledger.EventStore.Contract.{Admissible, lengths}
use streamledger.EventStore.Memory.{memory_store, append, validate}
use streamledger.EventStore.Memory.Invariant.{IsValid, append-IsValid}
use streamledger.EventStore.Memory.{load_since, since}
use streamledger.EventStore.Memory.Since.{page, load_since_exact}
use streamledger.EventStore.Memory.Validation.{validate_exact}
use streamledger.EventStore.Memory.Fulfils.{memory_lawful}
use streamledger.Ledger.Events.{
  FundsDeposited, event_funds_deposited, event_funds_withdrawn, event_stock_reserved,
  marshal_funds_deposited, marshal_funds_withdrawn, marshal_stock_reserved,
}
use streamledger.Ledger.Events.Codec.{RoundTrips, payloads_round_trip}
use streamledger.Ledger.State.{AccountState, InventoryState, apply_account, apply_inventory}
use streamledger.Ledger.Account.{IsSolvent, withdraws, Decided-IsSolvent, deposit_overflow}
use streamledger.Ledger.Inventory.{IsStocked, reserves, Decided-IsStocked}
use streamledger.Ledger.Service.{deposit, withdraw, transfer, withdraw_proposal}
use streamledger.Ledger.Proposals.{withdraw_proposal-Sees}
use streamledger.Ledger.Solvency.{AllSolvent, account_key}
use streamledger.Ledger.Service.Settle.{Silent}
use streamledger.Ledger.Service.Commit.{Ends}
use streamledger.Ledger.Service.Run.{run_command-Ends}
use streamledger.Ledger.Service.Unhindered.{nobody, run_command_decides}
use streamledger.Ledger.Service.Once.{used_key-Silent}
use streamledger.Ledger.Interleaving.{Waits}
use streamledger.GrpcServer.{
  rpc_withdraw, required, expected_version_or_auto, to_command_response, failed_precondition,
  text_of,
}
use streamledger.GrpcServer.Answers.{failed_withdrawal-Waits}
use streamledger.Ledger.Guarantees.{Moved, deposit_commits, withdraw_commits, withdraw-AllSolvent}
use streamledger.Ledger.Transfer.Commit.{TransferEnds, transfer_commits}
use streamledger.Tests.World.{
  svc, alone, alone-Respects, rival_at, rival_at-Respects, two_accounts, two_accounts-IsValid,
  two_accounts-AllSolvent, deposit_event, running,
}

abbrev first : List Event → List Event
first [] = []
first (e ∷ events) = e ∷ []

abbrev second : List Event → List Event
second [] = []
second (e ∷ events) = events

transfer_commits_example :
    TransferEnds memory_lawful
      (rival_at-Respects 2)
      svc
      "a"
      "b"
      (pos 60)
      "k3"
      two_accounts
      (transfer memory_store (rival_at 2) svc "a" "b" (pos 60) "k3" two_accounts)
unfolding running
transfer_commits_example =
    transfer_commits memory_lawful (rival_at-Respects 2) svc "a" "b" (pos 60) "k3" two_accounts
      two_accounts-IsValid (omega arith) (omega arith)

run_command-Ends_example :
    Ends memory_lawful
      (rival_at 2)
      (account_key "a")
      "k3"
      (withdraw_proposal "a" (pos 60) "r")
      two_accounts
      (withdraw memory_store (rival_at 2) svc "a" (pos 60) "r" "k3" no_version_check two_accounts)
unfolding running
run_command-Ends_example =
    run_command-Ends memory_lawful (rival_at-Respects 2) svc (account_key "a") "k3"
      (withdraw_proposal "a" (pos 60) "r") (withdraw_proposal-Sees "a" (pos 60) "r") two_accounts
      two_accounts-IsValid (omega arith)

deposit_commits_example :
    Silent
      (rival_at 2)
      two_accounts
      (deposit memory_store (rival_at 2) svc "a" (pos 60) "r" "k3" no_version_check two_accounts)
    ⊎ Moved memory_lawful
        (rival_at-Respects 2)
        svc
        "a"
        two_accounts
        (deposit memory_store (rival_at 2) svc "a" (pos 60) "r" "k3" no_version_check two_accounts)
        (λ b. add64 b (pos 60))
unfolding running
deposit_commits_example =
    deposit_commits memory_lawful (rival_at-Respects 2) svc "a" (pos 60) "r" "k3" two_accounts
      two_accounts-IsValid (omega arith) (omega arith)

withdraw_commits_example :
    Silent
      (rival_at 2)
      two_accounts
      (withdraw memory_store (rival_at 2) svc "a" (pos 60) "r" "k3" no_version_check two_accounts)
    ⊎ ((m : Moved memory_lawful
          (rival_at-Respects 2)
          svc
          "a"
          two_accounts
          (withdraw memory_store
            (rival_at 2)
            svc
            "a"
            (pos 60)
            "r"
            "k3"
            no_version_check
            two_accounts)
          (λ b. sub64 b (pos 60)))
        × (pos 0 <ℤ pos 60)
        × (pos 60 ≤ℤ m.state.balance_cents))
unfolding running
withdraw_commits_example =
    withdraw_commits memory_lawful (rival_at-Respects 2) svc "a" (pos 60) "r" "k3" two_accounts
      two_accounts-IsValid (omega arith) (omega arith)

withdraw-AllSolvent_example :
    AllSolvent
      (withdraw memory_store alone svc "a"
        (pos 60)
        "r"
        "k3"
        no_version_check
        two_accounts).1.store.events
unfolding running
withdraw-AllSolvent_example =
    withdraw-AllSolvent memory_lawful alone-Respects svc "a" (pos 60) "r" "k3" two_accounts
      two_accounts-IsValid (λ n s h all. all) (omega arith) two_accounts-AllSolvent

append-IsValid_example :
    IsValid (append "k3" (deposit_event ∷ deposit_event ∷ []) two_accounts.store).1
append-IsValid_example =
    append-IsValid "k3" (deposit_event ∷ deposit_event ∷ []) two_accounts.store two_accounts-IsValid

validate_exact_example :
    ((validate two_accounts.store.versions [] (deposit_event ∷ []) ≡ ok tt)
      × Admissible (lengths two_accounts.store.events) (deposit_event ∷ []))
    ⊎ ((validate two_accounts.store.versions [] (deposit_event ∷ []) ≡ err version_conflict)
        × (¬ Admissible (lengths two_accounts.store.events) (deposit_event ∷ [])))
validate_exact_example =
    validate_exact two_accounts.store (deposit_event ∷ []) two_accounts-IsValid.counted

abbrev account : AccountState
account = record { account_id = "a"; version = pos 3; opened = true; balance_cents = pos 100 }

abbrev item : InventoryState
item = record {
  item_id = "i";
  version = pos 3;
  available_quantity = pos 10;
  reserved_quantity = pos 2;
}

abbrev withdrawal : Event
withdrawal = record {
  global_seq = pos 9;
  aggregate_type = "account";
  aggregate_id = "a";
  version = pos 4;
  event_type = event_funds_withdrawn;
  payload =
      marshal_funds_withdrawn (record { account_id = "a"; amount_cents = pos 30; reason = "" });
  metadata = record { dedupe_key = ""; correlation_id = "" };
  created_at = record { sec = pos 0; nsec = 0 };
}

Decided-IsSolvent_example :
    (apply_account account withdrawal
      ≡ ok (record account { version = pos 4; balance_cents = pos 70 }))
    × IsSolvent (record account { version = pos 4; balance_cents = pos 70 })
unfolding running
Decided-IsSolvent_example =
    Decided-IsSolvent {st = account} {e = withdrawal}
      (withdraws (pos 30) "" (record { account_id = "a"; amount_cents = pos 30; reason = "" }) refl
        refl refl)
      (omega arith, omega arith)

abbrev reservation : Event
reservation = record withdrawal {
  event_type = event_stock_reserved;
  payload = marshal_stock_reserved (record { item_id = "i"; quantity = pos 4; order_id = "o" });
}

Decided-IsStocked_example :
    (apply_inventory item reservation
      ≡ ok (record item { version = pos 4; available_quantity = pos 6; reserved_quantity = pos 6 }))
    × IsStocked
        (record item { version = pos 4; available_quantity = pos 6; reserved_quantity = pos 6 })
unfolding running
Decided-IsStocked_example =
    Decided-IsStocked {st = item} {e = reservation}
      (reserves "i" (pos 4) "o" (record { item_id = "i"; quantity = pos 4; order_id = "o" })
        (omega arith) refl refl refl)
      (omega arith, omega arith, omega arith, omega arith)

abbrev huge : ℤ
huge = pos 9223372036854775807

abbrev huge_deposit : FundsDeposited
huge_deposit = record { account_id = "a"; amount_cents = huge; reason = "" }

abbrev huge_deposited : Event
huge_deposited = record withdrawal {
  event_type = event_funds_deposited;
  payload = marshal_funds_deposited huge_deposit;
}

deposit_overflow_example :
    (st' : AccountState) × (apply_account account huge_deposited ≡ ok st')
    × (st'.balance_cents <ℤ pos 0)
unfolding running
deposit_overflow_example =
    deposit_overflow account huge "" huge_deposited huge_deposit (omega arith, omega arith)
      (omega arith) (omega arith) refl refl refl

payloads_round_trip_example : RoundTrips (negsuc 4) "i" ""
payloads_round_trip_example = payloads_round_trip (negsuc 4) "i" "" (omega arith)

run_command_decides_example :
    (withdraw memory_store nobody svc "a" (pos 60) "r" "k3" no_version_check two_accounts).0
    ≡ ok (record { applied = true; duplicate = false; new_version = pos 2 })
unfolding running
run_command_decides_example =
    run_command_decides svc (account_key "a") "k3" (withdraw_proposal "a" (pos 60) "r")
      (withdraw_proposal-Sees "a" (pos 60) "r") two_accounts (omega arith) two_accounts-IsValid refl

used_key-Silent_example :
    Silent
      (rival_at 1)
      two_accounts
      (withdraw memory_store (rival_at 1) svc "a" (pos 60) "r" "k1" no_version_check two_accounts)
unfolding running
used_key-Silent_example =
    used_key-Silent memory_lawful (rival_at-Respects 1) svc (account_key "a") "k1"
      (withdraw_proposal "a" (pos 60) "r") (withdraw_proposal-Sees "a" (pos 60) "r") two_accounts
      two_accounts-IsValid (omega arith) (λ h. let b : false ≡ true = (eq_iff "k1" "").1 h in cc)
      (λ h. cc)

failed_withdrawal-Waits_example :
    Waits
      (rival_at 1)
      two_accounts
      (rpc_withdraw memory_store (rival_at 1) svc "a" (pos 600) "k3" (negsuc 0) two_accounts).1
unfolding running rpc_withdraw required expected_version_or_auto to_command_response
failed_withdrawal-Waits_example =
    failed_withdrawal-Waits memory_lawful (rival_at-Respects 1) svc "a" (pos 600) "k3" (negsuc 0)
      two_accounts two_accounts-IsValid failed_precondition (text_of insufficient_funds)
      (omega arith) (omega arith) refl

-- Two events, of which the second is asked for.
load_since_exact_example :
    load_since (int64 1) (pos 1) two_accounts.store
    ≡ ok (page (pos 1) (second two_accounts.store.events))
unfolding running load_since since
load_since_exact_example =
    load_since_exact two_accounts.store (first two_accounts.store.events)
      (second two_accounts.store.events) (pos 1) two_accounts-IsValid.counted (omega arith) refl
