-- ===== src/Tests/ViewDatabase.antt =====
-- A database that runs the statements of internal/projections/postgres/store.go on the tables
-- themselves, and the theorems on it.
use streamledger.Prelude.{◌*◌, ◌/◌, ◌≡◌, refl, none, String, arith, lookup, string_eq}
use streamledger.Outcome.{Outcome, ok}
use streamledger.EventStore.{Time}
use streamledger.Tests.Served.{served, served-Keeps}
use streamledger.Projections.Memory
use streamledger.Projections.Memory.{ReadModels, new}
use streamledger.Projections.Mirror.{account_apply-KeepsCheckpoints}
use streamledger.Projections.Projector.{account_applier, apply_event}
use streamledger.Projections.Redelivery.{projector}
use streamledger.Projections.Postgres.{
  Statement, Answer, Database, Session, select_account, upsert_account_row, select_inventory,
  upsert_inventory_row, select_checkpoint, raise_checkpoint, get_account, get_inventory,
  get_checkpoint,
}
use streamledger.Projections.Postgres.Tables.{Tables, no_rows, Answers, after, Serves}
use streamledger.Projections.Postgres.Calls.{Reflects}
use streamledger.Projections.Postgres.Body.{accounts-Alike, tables_projector}
use streamledger.Projections.Postgres.Closing.{Ended}
use streamledger.Projections.Postgres.Units.{Answered, apply_event_follows, queries_follow}
use streamledger.Tests.ReadSide.{opened_a}

unfoldable pub answer : (q : Statement) → Tables → Outcome (Answer q)
answer (select_account id) ts = ok (lookup id ts.accounts)
answer (upsert_account_row id row) ts = ok tt
answer (select_inventory id) ts = ok (lookup id ts.inventory)
answer (upsert_inventory_row id row) ts = ok tt
answer (select_checkpoint name) ts = ok (lookup name ts.checkpoints)
answer (raise_checkpoint name n) ts = ok tt

-- A column that keeps whole microseconds.
abbrev pub microseconds : Time → Time
microseconds t = record { sec = t.sec; nsec = t.nsec / 1000 * 1000 }

abbrev pub view_database : Database Tables Tables
view_database = served (after microseconds) answer

pub answer_lem : (q : Statement) (ts : Tables) {a : Answer q} → answer q ts ≡ ok a → Answers q ts a
unfolding answer
answer_lem (select_account id) ts e = ground arith
answer_lem (upsert_account_row id row) ts e = tt
answer_lem (select_inventory id) ts e = ground arith
answer_lem (upsert_inventory_row id row) ts e = tt
answer_lem (select_checkpoint name) ts e = ground arith
answer_lem (raise_checkpoint name n) ts e = tt

abbrev pub view_database-Serves : Serves microseconds view_database
view_database-Serves =
    served-Keeps (after microseconds) answer Answers (λ q ts a e. answer_lem q ts e)

abbrev start : Session Tables Tables
start = record { pool = no_rows; tx = none }

start-Reflects : Reflects no_rows new
unfolding lookup
start-Reflects = record { accounts = λ id. refl; inventory = λ id. refl; checkpoints = λ id. refl }

apply_event_follows_example :
    Ended view_database microseconds view_database-Serves start
      (apply_event (projector "balances" (account_applier Memory.read_models)) opened_a new)
      (apply_event
        (tables_projector view_database microseconds view_database-Serves "balances"
          (accounts-Alike view_database microseconds view_database-Serves))
        opened_a
        start)
apply_event_follows_example =
    apply_event_follows view_database microseconds view_database-Serves "balances"
      (accounts-Alike view_database microseconds view_database-Serves)
      (account_apply-KeepsCheckpoints "balances") opened_a start new refl refl start-Reflects

queries_follow_example :
    ((id : String)
      → Answered view_database microseconds view_database-Serves
          (select_account id)
          start
          (get_account view_database id start)
          (Memory.get_account id new))
    × ((id : String)
        → Answered view_database microseconds view_database-Serves
            (select_inventory id)
            start
            (get_inventory view_database id start)
            (Memory.get_inventory id new))
    × ((name : String)
        → Answered view_database microseconds view_database-Serves
            (select_checkpoint name)
            start
            (get_checkpoint view_database name start)
            (Memory.get_checkpoint name new))
queries_follow_example =
    queries_follow view_database microseconds view_database-Serves start new refl start-Reflects
