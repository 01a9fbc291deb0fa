-- ===== src/Tests/Rivals.antt =====
-- A withdrawal with a rival that acts once.
use streamledger.Prelude.{◌≡◌, ◌≢◌, ◌⊎◌, refl, false, arith, pos, eqb}
use streamledger.Outcome.{err, version_conflict}
use streamledger.EventStore.{no_version_check}
use streamledger.EventStore.Memory.{memory_store}
use streamledger.Ledger.Proposals.{withdraw_proposal-Sees}
use streamledger.Ledger.Service.{withdraw, withdraw_proposal}
use streamledger.Ledger.Conflicts.{withdraw_proposal-decides}
use streamledger.Ledger.Service.Contention.{StopAt, run_command-Settles}
use streamledger.Ledger.Service.Settle.{Silent}
use streamledger.Ledger.Service.Pinned.{PinnedCommit, run_command-PinnedCommit}
use streamledger.EventStore.Memory.Fulfils.{memory_lawful}
use streamledger.Ledger.Solvency.{account_key}
use streamledger.Tests.World.{
  svc, rival_at, rival_at-Respects, two_accounts, two_accounts-IsValid, running,
}

rival-StopAt : StopAt (rival_at 2) 3
rival-StopAt n s le = let past : eqb n 2 ≡ false = ground (arith, le) in rw past refl

run_command-Settles_example :
    (withdraw memory_store (rival_at 2) svc "a" (pos 60) "r" "k3" no_version_check two_accounts).0
    ≢ err version_conflict
unfolding running
run_command-Settles_example =
    run_command-Settles (rival_at 2) (rival_at-Respects 2) 3 rival-StopAt svc (account_key "a") "k3"
      (withdraw_proposal "a" (pos 60) "r") (withdraw_proposal-Sees "a" (pos 60) "r")
      (withdraw_proposal-decides "a" (pos 60) "r") two_accounts (omega arith) two_accounts-IsValid
      (omega arith)

-- The rival acts before the append, which is then refused.
run_command-PinnedCommit_example :
    Silent
      (rival_at 2)
      two_accounts
      (withdraw memory_store (rival_at 2) svc "a" (pos 60) "r" "k3" (pos 1) two_accounts)
    ⊎ PinnedCommit memory_lawful
        (rival_at 2)
        (account_key "a")
        (pos 1)
        two_accounts
        (withdraw memory_store (rival_at 2) svc "a" (pos 60) "r" "k3" (pos 1) two_accounts)
unfolding withdraw
run_command-PinnedCommit_example =
    run_command-PinnedCommit memory_lawful (rival_at-Respects 2) svc (account_key "a") "k3" (pos 1)
      (λ e. absurd (ground arith)) (withdraw_proposal "a" (pos 60) "r") two_accounts
      two_accounts-IsValid
