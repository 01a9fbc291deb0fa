-- ===== src/GrpcServer.antt =====
-- internal/grpcserver/server.go: the command and query API over the handlers and the projections.
-- A request is the values of its fields; the messages themselves are generated code.
pub mod Answers
pub mod Queries
use streamledger.Prelude.{
  ℕ, suc, ◌+◌, ◌*◌, ◌-◌, ◌/◌, Bool, true, false, ◌||◌, List, [], ◌∷◌, String, if◌then◌else◌, ℤ, pos,
  negsuc, ltb_ℤ, ◌+ℤ◌, ◌==◌, string_eq,
}
use streamledger.Int64.{wrap64, sub64}
use streamledger.Outcome.{
  Error, Outcome, ok, err, version_conflict, invalid_amount, invalid_quantity,
  same_account_transfer, account_already_opened, account_not_open, insufficient_funds,
  insufficient_stock,
}
use streamledger.EventStore.{Time, Store, no_version_check}
use streamledger.Ledger.Command.{World, Others}
use streamledger.Ledger.Service.{
  Result, Service, open_account, deposit, withdraw, transfer, adjust_inventory, reserve_stock,
  release_stock,
}
use streamledger.Projections.{ReadModelStore}
use streamledger.Projections.Projector.{Projector, checkpoint}

-- the codes.Code values that the server uses
pub data Code : Type 0 where
  aborted invalid_argument already_exists failed_precondition internal : Code

-- The text of a status: the server's own, or an error's.
pub data Message : Type 0 where
  text : String → Message
  text_of : Error → Message

pub data Rpc (A : Type 0) : Type 0 where
  answer : A → Rpc A
  failed : Code → Message → Rpc A

abbrev pub code_of : Error → Code
code_of version_conflict = aborted
code_of invalid_amount = invalid_argument
code_of invalid_quantity = invalid_argument
code_of same_account_transfer = invalid_argument
code_of account_already_opened = already_exists
code_of account_not_open = failed_precondition
code_of insufficient_funds = failed_precondition
code_of insufficient_stock = failed_precondition
code_of _ = internal

abbrev pub map_error : {A : Type 0} → Error → Rpc A
map_error e = failed (code_of e) (text_of e)

pub record CommandResponse : Type 0 where
  pub applied : Bool
  pub duplicate : Bool
  pub new_version : ℤ
  pub message : String

unfoldable pub to_command_response : Outcome Result → Rpc CommandResponse
to_command_response (err e) = map_error e
to_command_response (ok res) = answer (record {
  applied = res.applied;
  duplicate = res.duplicate;
  new_version = res.new_version;
  message = if res.duplicate then "duplicate: replaying cached result" else "applied";
})

unfoldable pub expected_version_or_auto : ℤ → ℤ
expected_version_or_auto v = if ltb_ℤ v (pos 0) then no_version_check else v

-- A request without its identifier is refused before anything is called.
unfoldable pub required :
    {S : Type 0}
    → Bool
    → String
    → (World S → Outcome Result × World S)
    → World S
    → Rpc CommandResponse × World S
required missing complaint command w =
    let (r, w') = command w in
    if missing then (failed invalid_argument (text complaint), w) else (to_command_response r, w')

module _ {S : Type 0} (ops : Store S) (others : Others S) (svc : Service) where
  unfoldable pub rpc_open_account : String → ℤ → String → World S → Rpc CommandResponse × World S
  rpc_open_account account_id initial_balance_cents dedupe_key =
      required (account_id == "") "account_id is required"
        (open_account ops others svc account_id initial_balance_cents dedupe_key)

  unfoldable pub rpc_deposit : String → ℤ → String → ℤ → World S → Rpc CommandResponse × World S
  rpc_deposit account_id amount_cents dedupe_key expected_version =
      required (account_id == "") "account_id is required" (
        deposit ops others svc account_id amount_cents "" dedupe_key
          (expected_version_or_auto expected_version))

  unfoldable pub rpc_withdraw : String → ℤ → String → ℤ → World S → Rpc CommandResponse × World S
  rpc_withdraw account_id amount_cents dedupe_key expected_version =
      required (account_id == "") "account_id is required" (
        withdraw ops others svc account_id amount_cents "" dedupe_key
          (expected_version_or_auto expected_version))

  unfoldable pub rpc_transfer :
      String → String → ℤ → String → World S → Rpc CommandResponse × World S
  rpc_transfer from_account_id to_account_id amount_cents dedupe_key =
      required (from_account_id == "" || to_account_id == "")
        "from_account_id and to_account_id are required"
        (transfer ops others svc from_account_id to_account_id amount_cents dedupe_key)

  unfoldable pub rpc_adjust_inventory :
      String → ℤ → String → String → World S → Rpc CommandResponse × World S
  rpc_adjust_inventory item_id delta_quantity reason dedupe_key =
      required (item_id == "") "item_id is required"
        (adjust_inventory ops others svc item_id delta_quantity reason dedupe_key no_version_check)

  unfoldable pub rpc_reserve_stock :
      String → ℤ → String → String → World S → Rpc CommandResponse × World S
  rpc_reserve_stock item_id quantity order_id dedupe_key =
      required (item_id == "") "item_id is required"
        (reserve_stock ops others svc item_id quantity order_id dedupe_key no_version_check)

  unfoldable pub rpc_release_stock :
      String → ℤ → String → String → World S → Rpc CommandResponse × World S
  rpc_release_stock item_id quantity order_id dedupe_key =
      required (item_id == "") "item_id is required"
        (release_stock ops others svc item_id quantity order_id dedupe_key no_version_check)

-- time.Time.UnixMilli
abbrev pub thousandfold : ℤ → ℤ
thousandfold (pos n) = pos (n * 1000)
thousandfold (negsuc n) = negsuc (suc n * 1000 - 1)

unfoldable pub unix_milli : Time → ℤ
unix_milli t = wrap64 (thousandfold t.sec +ℤ pos (t.nsec / 1000000))

pub record GetBalanceResponse : Type 0 where
  pub account_id : String
  pub found : Bool
  pub balance_cents : ℤ
  pub version : ℤ
  pub updated_at_unix_ms : ℤ

pub record GetInventoryResponse : Type 0 where
  pub item_id : String
  pub found : Bool
  pub available_quantity : ℤ
  pub reserved_quantity : ℤ
  pub version : ℤ
  pub updated_at_unix_ms : ℤ

pub record ProjectionLag : Type 0 where
  pub projection_name : String
  pub latest_global_seq : ℤ
  pub applied_global_seq : ℤ
  pub lag : ℤ

module _ {R : Type 0} (read_models : ReadModelStore R) where
  unfoldable pub get_balance : String → R → Rpc GetBalanceResponse
  get_balance account_id s =
      if account_id == ""
      then failed invalid_argument (text "account_id is required")
      else elim (read_models.get_account account_id s) [
        | err e ↦ failed internal (text_of e)
        | ok (view, found) ↦ answer (record {
          account_id = account_id;
          found = found;
          balance_cents = view.balance_cents;
          version = view.version;
          updated_at_unix_ms = unix_milli view.updated_at;
        })
      ]

  unfoldable pub get_inventory : String → R → Rpc GetInventoryResponse
  get_inventory item_id s =
      if item_id == ""
      then failed invalid_argument (text "item_id is required")
      else elim (read_models.get_inventory item_id s) [
        | err e ↦ failed internal (text_of e)
        | ok (view, found) ↦ answer (record {
          item_id = item_id;
          found = found;
          available_quantity = view.available_quantity;
          reserved_quantity = view.reserved_quantity;
          version = view.version;
          updated_at_unix_ms = unix_milli view.updated_at;
        })
      ]

module _ {R : Type 0} where
  -- The loop over the projectors.
  unfoldable pub lags : ℤ → List (Projector R) → R → Rpc (List ProjectionLag)
  lags latest [] s = answer []
  lags latest (p ∷ projectors) s =
      let rest = lags latest projectors s in
      elim (checkpoint p s) [
        | err e ↦ failed internal (text_of e)
        | ok seen ↦
            let behind = sub64 latest seen in
            elim rest [
              | failed c m ↦ failed c m
              | answer more ↦ answer (
                  record {
                    projection_name = p.name;
                    latest_global_seq = latest;
                    applied_global_seq = seen;
                    lag = if ltb_ℤ behind (pos 0) then pos 0 else behind;
                  }
                  ∷ more)
            ]
      ]

  unfoldable pub get_projection_lag :
      {S : Type 0} → Store S → Projector R → Projector R → S → R → Rpc (List ProjectionLag)
  get_projection_lag store balances inventory log s = elim (store.latest_global_seq log) [
    | err e ↦ failed internal (text_of e)
    | ok latest ↦ lags latest (balances ∷ inventory ∷ []) s
  ]
