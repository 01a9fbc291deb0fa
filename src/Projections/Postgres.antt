-- ===== src/Projections/Postgres.antt =====
-- internal/projections/postgres/store.go: the views in a Postgres database.
pub mod Tables
pub mod Calls
pub mod Follows
pub mod Body
pub mod Closing
pub mod Units
use Prim.Native.String.{◌++◌ as str_append}
use streamledger.Prelude.{Bool, true, false, Option, none, some, String, ℤ, pos}
use streamledger.Outcome.{Outcome, ok, err, external, wrap_error}
use streamledger.Action.{Action}
use streamledger.Sql.{Connection}
use streamledger.EventStore.{Time}
use streamledger.Projections.{
  AccountView, InventoryView, zero_account_view, zero_inventory_view, ReadModelStore,
}

-- What the store scans from a row of `accounts_view` and of `inventory_view`.
pub record AccountRow : Type 0 where
  pub balance_cents : ℤ
  pub version : ℤ
  pub updated_at : Time

pub record InventoryRow : Type 0 where
  pub available_quantity : ℤ
  pub reserved_quantity : ℤ
  pub version : ℤ
  pub updated_at : Time

pub data Statement : Type 0 where
  -- SELECT balance_cents, version, updated_at FROM accounts_view WHERE account_id = $1
  select_account : String → Statement
  -- INSERT INTO accounts_view … ON CONFLICT (account_id) DO UPDATE …
  upsert_account_row : String → AccountRow → Statement
  -- SELECT … FROM inventory_view WHERE item_id = $1
  select_inventory : String → Statement
  -- INSERT INTO inventory_view … ON CONFLICT (item_id) DO UPDATE …
  upsert_inventory_row : String → InventoryRow → Statement
  -- SELECT global_seq FROM projection_checkpoints WHERE projection_name = $1
  select_checkpoint : String → Statement
  -- INSERT INTO projection_checkpoints … SET global_seq = GREATEST(…)
  raise_checkpoint : String → ℤ → Statement

-- What a statement is scanned into; `none` is pgx.ErrNoRows.
abbrev pub Answer : Statement → Type 0
Answer (select_account id) = Option AccountRow
Answer (upsert_account_row id row) = Unit {0}
Answer (select_inventory id) = Option InventoryRow
Answer (upsert_inventory_row id row) = Unit {0}
Answer (select_checkpoint name) = Option ℤ
Answer (raise_checkpoint name n) = Unit {0}

abbrev pub Database : Type 0 → Type 0 → Type 0
Database = Connection Answer

-- The pool, and the transaction that the context carries where there is one (`withTx`).
pub record Session (D T : Type 0) : Type 0 where
  pub pool : D
  pub tx : Option T

-- fmt.Errorf("projections/postgres: …: %w", err)
abbrev pub context {ℓ} : {A : Type ℓ} → String → Outcome A → Outcome A
context what = wrap_error (external (str_append "projections/postgres: " what))

abbrev pub account_of : String → AccountRow → AccountView
account_of account_id row = record {
  account_id = account_id;
  balance_cents = row.balance_cents;
  version = row.version;
  updated_at = row.updated_at;
}

abbrev pub inventory_of : String → InventoryRow → InventoryView
inventory_of item_id row = record {
  item_id = item_id;
  available_quantity = row.available_quantity;
  reserved_quantity = row.reserved_quantity;
  version = row.version;
  updated_at = row.updated_at;
}

-- The rest of `GetAccount`, `GetInventory` and `GetCheckpoint`, after the scan.
abbrev pub account_found : String → Outcome (Option AccountRow) → Outcome (AccountView × Bool)
account_found account_id (err e) = err e
account_found account_id (ok none) = ok (zero_account_view, false)
account_found account_id (ok (some row)) = ok (account_of account_id row, true)

abbrev pub inventory_found : String → Outcome (Option InventoryRow) → Outcome (InventoryView × Bool)
inventory_found item_id (err e) = err e
inventory_found item_id (ok none) = ok (zero_inventory_view, false)
inventory_found item_id (ok (some row)) = ok (inventory_of item_id row, true)

abbrev pub checkpoint_found : Outcome (Option ℤ) → Outcome ℤ
checkpoint_found (err e) = err e
checkpoint_found (ok none) = ok (pos 0)
checkpoint_found (ok (some seq)) = ok seq

module _ {D T : Type 0} (db : Database D T) where
  -- `s.q(ctx).QueryRow(…).Scan`, on the transaction of the context or else on the pool
  abbrev pub scan_in : (q : Statement) → D → Option T → Outcome (Answer q)
  scan_in q pool none = db.read q pool
  scan_in q pool (some t) = db.peek q t

  unfoldable pub query_row : (q : Statement) → Session D T → Outcome (Answer q)
  query_row q s = scan_in q s.pool s.tx

  -- `s.q(ctx).Exec`
  abbrev pub exec_in : (q : Statement) → D → Option T → Outcome (Answer q) × Session D T
  exec_in q pool none = let (r, pool') = db.exec q pool in (r, record { pool = pool'; tx = none })
  exec_in q pool (some t) = let (r, t') = db.run q t in (r, record { pool = pool; tx = some t' })

  unfoldable pub exec : String → (q : Statement) → Action (Session D T) (Answer q)
  exec what q s = let (r, s') = exec_in q s.pool s.tx in (context what r, s')

  unfoldable pub get_account : String → Session D T → Outcome (AccountView × Bool)
  get_account account_id s =
      account_found account_id (context "get account" (query_row (select_account account_id) s))

  unfoldable pub upsert_account : AccountView → Action (Session D T) (Unit {0})
  upsert_account view = exec "upsert account" (
      upsert_account_row view.account_id (record {
        balance_cents = view.balance_cents;
        version = view.version;
        updated_at = view.updated_at;
      }))

  unfoldable pub get_inventory : String → Session D T → Outcome (InventoryView × Bool)
  get_inventory item_id s =
      inventory_found item_id (context "get inventory" (query_row (select_inventory item_id) s))

  unfoldable pub upsert_inventory : InventoryView → Action (Session D T) (Unit {0})
  upsert_inventory view = exec "upsert inventory" (
      upsert_inventory_row view.item_id (record {
        available_quantity = view.available_quantity;
        reserved_quantity = view.reserved_quantity;
        version = view.version;
        updated_at = view.updated_at;
      }))

  unfoldable pub get_checkpoint : String → Session D T → Outcome ℤ
  get_checkpoint projection_name s =
      checkpoint_found (context "get checkpoint" (query_row (select_checkpoint projection_name) s))

  unfoldable pub set_checkpoint : String → ℤ → Action (Session D T) (Unit {0})
  set_checkpoint projection_name global_seq =
      exec "set checkpoint" (raise_checkpoint projection_name global_seq)

  -- The transaction that `fn` worked in; it hands back the one that it was given.
  abbrev pub worked_in : T → Option T → T
  worked_in begun none = begun
  worked_in begun (some t) = t

  -- `tx.Commit`, and the deferred `tx.Rollback` when there is an error.
  abbrev pub committed : {A : Type 0} → A → Outcome (Unit {0}) → T → Action D A
  committed hit (ok _) t pool = (ok hit, pool)
  committed hit (err e) t pool = (err e, db.rollback t pool)

  unfoldable pub finish_tx : Outcome Bool → T → Action D Bool
  finish_tx (err e) t pool = (err e, db.rollback t pool)
  finish_tx (ok hit) t pool =
      let (r, pool') = db.commit t pool in committed hit (context "commit" r) t pool'

  -- `WithTx`, once the transaction has begun.
  unfoldable pub with_begun : T → Action (Session D T) Bool → Action (Session D T) Bool
  with_begun t fn s =
      let (r, s') = fn (record { pool = s.pool; tx = some t }) in
      let (r', pool') = finish_tx r (worked_in t s'.tx) s'.pool in
      (r', record { pool = pool'; tx = s.tx })

  abbrev pub in_begun : Outcome T → Action (Session D T) Bool → Action (Session D T) Bool
  in_begun (err e) fn s = (err e, s)
  in_begun (ok t) fn s = with_begun t fn s

  unfoldable pub with_tx : Action (Session D T) Bool → Action (Session D T) Bool
  with_tx fn s = in_begun (context "begin tx" (db.begin s.pool)) fn s

  -- `var _ projections.ReadModelStore = (*Store)(nil)`
  abbrev pub read_models : ReadModelStore (Session D T)
  read_models = record {
    get_account = get_account;
    upsert_account = upsert_account;
    get_inventory = get_inventory;
    upsert_inventory = upsert_inventory;
    get_checkpoint = get_checkpoint;
    set_checkpoint = set_checkpoint;
    with_tx = with_tx;
  }
