-- ===== src/Tests/World.antt =====
-- A store with two accounts, alone and with a rival client that appends in the middle of a command.
use streamledger.Prelude.{
  ℕ, ◌≡◌, refl, inl, inr, Bool, true, false, Bool-cases, [], ◌∷◌, String, arith, length, eqb,
  if◌then◌else◌, ℤ, pos,
}
use streamledger.Int64.{add64, sub64, wrap64, int64}
use streamledger.Prelude.{lookup, insert, ◌+ℤ◌, ◌-ℤ◌}
use streamledger.Outcome.{Outcome, ok}
use streamledger.EventStore.{Time, AppendEvent, no_version_check, stream_does_not_exist}
use streamledger.EventStore.Memory.{
  MemoryStore, new, memory_store, append, prior_events, validate, write, write_all, remember,
  commit, lookup_dedupe, load_stream,
}
use streamledger.EventStore.Memory.Invariant.{
  IsValid, new-IsValid, append-IsValid, append-Continues,
}
use streamledger.EventStore.Memory.Fulfils.{memory_lawful}
use streamledger.Ledger.Events.{
  event_account_opened, event_funds_deposited, marshal_funds_deposited, marshal_account_opened,
  marshal_funds_withdrawn, marshal_inventory_adjusted, marshal_stock_reserved,
  marshal_stock_released, unmarshal_account_opened, unmarshal_funds_deposited,
  unmarshal_funds_withdrawn, unmarshal_inventory_adjusted, unmarshal_stock_reserved,
  unmarshal_stock_released,
}
use streamledger.Ledger.Solvency.{AllSolvent, AllSolvent-snoc}
use streamledger.Ledger.Account.{opens}
use streamledger.Ledger.State.{
  zero_account, apply_account, fold_account_from, fold_account, apply_inventory,
  fold_inventory_from, fold_inventory,
}
use streamledger.Ledger.Decide.{
  decide_open_account, decide_deposit, decide_withdraw, decide_adjust_inventory,
  decide_reserve_stock, decide_release_stock,
}
use streamledger.Ledger.Command.{World, Others, call_load_stream, call_lookup_dedupe, call_append}
use streamledger.Ledger.Interleaving.{Respects, Continues-refl}
use streamledger.Ledger.Service.{
  Result, Service, new_service, max_retries, duplicate_version, duplicate_result, plan_version,
  expected_version_for, deposit_proposal, withdraw_proposal, adjust_inventory_proposal,
  reserve_stock_proposal, release_stock_proposal, publish, applied_result, processed, settle, retry,
  run_command, deposit, withdraw, adjust_inventory, reserve_stock, release_stock, open_account,
  transfer_retry, transfer,
}

-- Its line opens what a run of the model computes with.
unfoldable pub running : Bool
unfolding add64 sub64 wrap64 int64 ◌+ℤ◌ ◌-ℤ◌ lookup insert append prior_events validate write
    write_all remember commit lookup_dedupe load_stream marshal_funds_deposited
    marshal_account_opened marshal_funds_withdrawn marshal_inventory_adjusted marshal_stock_reserved
    marshal_stock_released unmarshal_account_opened unmarshal_funds_deposited
    unmarshal_funds_withdrawn unmarshal_inventory_adjusted unmarshal_stock_reserved
    unmarshal_stock_released apply_account fold_account_from fold_account apply_inventory
    fold_inventory_from fold_inventory decide_open_account decide_deposit decide_withdraw
    decide_adjust_inventory decide_reserve_stock decide_release_stock call_load_stream
    call_lookup_dedupe call_append max_retries duplicate_version duplicate_result plan_version
    expected_version_for deposit_proposal withdraw_proposal adjust_inventory_proposal
    reserve_stock_proposal release_stock_proposal publish applied_result processed settle retry
    run_command deposit withdraw adjust_inventory reserve_stock release_stock open_account
    transfer_retry transfer
running = true

abbrev pub clock : ℕ → Time
clock n = record { sec = pos n; nsec = 0 }

abbrev pub svc : Service
svc = new_service true

abbrev pub alone : Others MemoryStore
alone n s = s

pub alone-Respects : Respects memory_lawful alone
alone-Respects = record { stays_valid = λ n s h. h; continues = λ n s h. Continues-refl s.events }

abbrev pub deposit_event : AppendEvent
deposit_event = record {
  aggregate_type = "account";
  aggregate_id = "a";
  event_type = event_funds_deposited;
  payload =
      marshal_funds_deposited (record { account_id = "a"; amount_cents = pos 5; reason = "" });
  expected_version = no_version_check;
}

-- A rival deposits 5 into account "a" before the command's n-th call.
abbrev pub rival_at : ℕ → Others MemoryStore
rival_at n m s = if eqb m n then (append "rival" (deposit_event ∷ []) s).1 else s

pub rival_at-Respects : (n : ℕ) → Respects memory_lawful (rival_at n)
rival_at-Respects n = record {
  stays_valid = λ m s h. elim (Bool-cases (eqb m n)) [
    | inl acts ↦ rw acts (append-IsValid "rival" (deposit_event ∷ []) s h)
    | inr idle ↦ rw idle h
  ];
  continues = λ m s h. elim (Bool-cases (eqb m n)) [
    | inl acts ↦ rw acts (append-Continues "rival" (deposit_event ∷ []) s)
    | inr idle ↦ rw idle (Continues-refl s.events)
  ];
}

abbrev opening : String → ℤ → AppendEvent
opening id initial = record {
  aggregate_type = "account";
  aggregate_id = id;
  event_type = event_account_opened;
  payload = marshal_account_opened (record { account_id = id; initial_balance_cents = initial });
  expected_version = stream_does_not_exist;
}

abbrev store_a : MemoryStore
store_a = (append "k1" (opening "a" (pos 100) ∷ []) (new clock)).1

-- Account "a" holds 100 and account "b" 50; no call of the next command has been made.
abbrev pub two_accounts : World MemoryStore
two_accounts = record {
  store = (append "k2" (opening "b" (pos 50) ∷ []) store_a).1;
  calls = 0;
  published = [];
}

pub two_accounts-IsValid : IsValid two_accounts.store
two_accounts-IsValid =
    append-IsValid "k2" _ store_a (append-IsValid "k1" _ (new clock) (new-IsValid clock))

no_event-AllSolvent : AllSolvent []
unfolding running
no_event-AllSolvent id st q = ground arith

-- Both openings are decided events of an account that was not open.
pub two_accounts-AllSolvent : AllSolvent two_accounts.store.events
unfolding running
two_accounts-AllSolvent =
    AllSolvent-snoc "b" store_a.events _ (zero_account "b")
      (AllSolvent-snoc "a" [] _ (zero_account "a") no_event-AllSolvent refl refl (
        opens "a" (pos 100) (record { account_id = "a"; initial_balance_cents = pos 100 })
          (omega arith) refl refl refl))
      refl refl
      (opens "b" (pos 50) (record { account_id = "b"; initial_balance_cents = pos 50 })
        (omega arith) refl refl refl)

-- The handlers bring the store there.
opened : Outcome Result × World MemoryStore
unfolding running
opened =
    open_account memory_store alone svc "b" (pos 50) "k2"
      (open_account memory_store alone svc "a" (pos 100) "k1"
        (record { store = new clock; calls = 0; published = [] })).1

opened-store : opened.1.store ≡ two_accounts.store
unfolding running opened
opened-store = refl

two_accounts-count : length two_accounts.store.events ≡ 2
unfolding running
two_accounts-count = refl

-- The withdrawal loses the race once, and succeeds at the next attempt.
contended_withdrawal :
    (withdraw memory_store (rival_at 2) svc "a" (pos 60) "r" "k3" no_version_check two_accounts).0
    ≡ ok (record { applied = true; duplicate = false; new_version = pos 3 })
unfolding running
contended_withdrawal = refl
