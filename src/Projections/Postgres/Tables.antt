-- ===== src/Projections/Postgres/Tables.antt =====
-- What the database promises of the statements on the views: the tables of
-- internal/projections/postgres/schema, and what each statement reads and writes there.
-- Transactions run one after another. A column of type TIMESTAMPTZ holds `stored` of the time, a
-- parameter: it has microseconds and no more.
use streamledger.Prelude.{
  ◌≡◌, Option, none, some, [], String, if◌then◌else◌, ℤ, ltb_ℤ, string_eq, Map, lookup, insert,
}
use streamledger.EventStore.{Time}
use streamledger.Sql.{Keeps}
use streamledger.Projections.Postgres.{
  AccountRow, InventoryRow, Statement, Answer, Database, select_account, upsert_account_row,
  select_inventory, upsert_inventory_row, select_checkpoint, raise_checkpoint,
}

-- The tables accounts_view, inventory_view and projection_checkpoints, by their primary keys.
pub record Tables : Type 0 where
  pub accounts : Map String AccountRow
  pub inventory : Map String InventoryRow
  pub checkpoints : Map String ℤ

abbrev pub no_rows : Tables
no_rows = record { accounts = []; inventory = []; checkpoints = [] }

abbrev pub Answers : (q : Statement) → Tables → Answer q → Type 0
Answers (select_account id) ts a = a ≡ lookup id ts.accounts
Answers (upsert_account_row id row) ts a = Unit
Answers (select_inventory id) ts a = a ≡ lookup id ts.inventory
Answers (upsert_inventory_row id row) ts a = Unit
Answers (select_checkpoint name) ts a = a ≡ lookup name ts.checkpoints
Answers (raise_checkpoint name n) ts a = Unit

-- GREATEST, and the new number where there is no row
abbrev pub greatest : Option ℤ → ℤ → ℤ
greatest none n = n
greatest (some old) n = if ltb_ℤ old n then n else old

abbrev pub after : (Time → Time) → (q : Statement) → Answer q → Tables → Tables
after stored (upsert_account_row id row) a ts = record ts {
  accounts = insert id (record row { updated_at = stored row.updated_at }) ts.accounts;
}
after stored (upsert_inventory_row id row) a ts = record ts {
  inventory = insert id (record row { updated_at = stored row.updated_at }) ts.inventory;
}
after stored (raise_checkpoint name n) a ts = record ts {
  checkpoints = insert name (greatest (lookup name ts.checkpoints) n) ts.checkpoints;
}
after stored (select_account id) a ts = ts
after stored (select_inventory id) a ts = ts
after stored (select_checkpoint name) a ts = ts

-- What the database promises.
abbrev pub Serves : {D T : Type 0} → (Time → Time) → Database D T → Type 0
Serves stored = Keeps Answers (after stored)
