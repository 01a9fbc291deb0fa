-- ===== src/GrpcServer/Answers.antt =====
-- What the answers of the API tell about the ledger.
use streamledger.Prelude.{
  ◌^◌, ◌<◌, ◌≡◌, ◌≢◌, inl, inr, arith, Bool, Bool-cases, List, String, length, ℤ, pos, ◌<ℤ◌, ◌==◌,
  string_eq,
}
use streamledger.Outcome.{Outcome}
use streamledger.EventStore.{Event, Store, StreamKey, no_version_check}
use streamledger.EventStore.Contract.{Lawful}
use streamledger.Ledger.Command.{World, Others}
use streamledger.Ledger.Interleaving.{Respects, Waits, here}
use streamledger.Ledger.Solvency.{account_key}
use streamledger.Ledger.Proposals.{withdraw_proposal-Sees}
use streamledger.Ledger.Service.{Result, Service, Proposal, withdraw_proposal, withdraw}
use streamledger.Ledger.Service.Commit.{Ends}
use streamledger.Ledger.Service.Run.{run_command-Ends}
use streamledger.GrpcServer.{
  Code, Message, answer, failed, to_command_response, expected_version_or_auto, required,
  rpc_withdraw,
}

answer≢failed : {A : Type 0} {a : A} {c : Code} {m : Message} → answer a ≢ failed c m
answer≢failed h = cc

module _ {S : Type 0} {ops : Store S} (laws : Lawful ops) {others : Others S} (k : StreamKey)
    (d : String) (propose : List Event → Outcome Proposal) (w : World S) where
  -- A command that ends well is answered, so one that is answered with an error was silent.
  required-Waits :
      (missing : Bool) (complaint : String) (command : World S → Outcome Result × World S)
      {c : Code} {m : Message}
      → Ends laws others k d propose w (command w)
      → (required missing complaint command w).0 ≡ failed c m
      → Waits others w (required missing complaint command w).1
  unfolding required to_command_response
  required-Waits missing complaint command ends e = elim (Bool-cases missing) [
    | inl q ↦ rw q here
    | inr q ↦ elim ends [
      | inl silent ↦ rw q silent.1
      | inr committed ↦
          let bad : answer _ ≡ failed _ _ = rw (q, committed.reported) at e in
          absurd (answer≢failed bad)
    ]
  ]

auto_version : (v : ℤ) → v <ℤ pos 0 → expected_version_or_auto v ≡ no_version_check
unfolding expected_version_or_auto
auto_version v h = ground arith

module _ {S : Type 0} {ops : Store S} (laws : Lawful ops) {others : Others S}
    (r : Respects laws others) (svc : Service) (id : String) (amount : ℤ) (d : String)
    (expected : ℤ) (w : World S) (h : laws.IsValid w.store) where
  -- On a valid store, with others that keep it valid and only append: a Withdraw request without an
  -- expected version that is answered with an error has changed nothing and published nothing,
  -- however often it retried (in a log that stays below 2^63 events).
  pub failed_withdrawal-Waits :
      (c : Code) (m : Message)
      → expected <ℤ pos 0
      → length (laws.log (withdraw ops others svc id amount "" d no_version_check w).1.store)
        < 2 ^ 63
      → (rpc_withdraw ops others svc id amount d expected w).0 ≡ failed c m
      → Waits others w (rpc_withdraw ops others svc id amount d expected w).1
  unfolding rpc_withdraw withdraw
  failed_withdrawal-Waits c m auto small e =
      let k : expected_version_or_auto expected ≡ no_version_check = auto_version expected auto in
      let e' = rw k at e in
      rw k (
        required-Waits laws (account_key id) d (withdraw_proposal id amount "") w (id == "")
          "account_id is required" (withdraw ops others svc id amount "" d no_version_check)
          (run_command-Ends laws r svc (account_key id) d (withdraw_proposal id amount "")
            (withdraw_proposal-Sees id amount "") w h small)
          e')
