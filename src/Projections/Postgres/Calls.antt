-- ===== src/Projections/Postgres/Calls.antt =====
-- The calls of internal/projections/postgres/store.go against those of the in-process views.
use streamledger.Prelude.{
  ◌≡◌, inl, inr, refl, Bool, true, Option, none, some, String, arith, ℤ, pos, ltb_ℤ, ◌<ℤ◌,
  string_eq, eq_iff, lookup, lookup_or, insert, lookup-insert,
}
use streamledger.EventStore.{Time}
use streamledger.Outcome.{Outcome, ok, err, Outcome-cases}
use streamledger.Projections.{AccountView, InventoryView}
use streamledger.Projections.Memory
use streamledger.Projections.Memory.{ReadModels}
use streamledger.Projections.Postgres.{
  AccountRow, InventoryRow, Statement, Answer, Database, Session, context, scan_in, query_row,
  exec_in, exec, get_account, upsert_account, get_inventory, upsert_inventory, get_checkpoint,
  set_checkpoint, select_account, select_inventory, select_checkpoint, raise_checkpoint,
}
use streamledger.Projections.Postgres.Tables.{Tables, Answers, after, greatest, Serves}

-- The view that a row of `accounts_view` stands for.
abbrev pub account_shown : String → AccountRow → AccountView
account_shown id row = record {
  account_id = id;
  balance_cents = row.balance_cents;
  version = row.version;
  updated_at = row.updated_at;
}

-- The view that a row of `inventory_view` stands for.
abbrev pub inventory_shown : String → InventoryRow → InventoryView
inventory_shown id row = record {
  item_id = id;
  available_quantity = row.available_quantity;
  reserved_quantity = row.reserved_quantity;
  version = row.version;
  updated_at = row.updated_at;
}

abbrev pub shown_account : String → Option AccountRow → Option AccountView
shown_account id none = none
shown_account id (some row) = some (account_shown id row)

abbrev pub shown_inventory : String → Option InventoryRow → Option InventoryView
shown_inventory id none = none
shown_inventory id (some row) = some (inventory_shown id row)

-- The tables hold the views and the checkpoints.
pub record Reflects (ts : Tables) (v : ReadModels) : Type 0 where
  pub accounts : (id : String) → lookup id v.accounts ≡ shown_account id (lookup id ts.accounts)
  pub inventory :
      (id : String) → lookup id v.inventory ≡ shown_inventory id (lookup id ts.inventory)
  pub checkpoints :
      (name : String) → lookup_or (pos 0) name v.checkpoints ≡ lookup_or (pos 0) name ts.checkpoints

pub context_ok {ℓ} :
    {A : Type ℓ} (what : String) (r : Outcome A) {a : A} → context what r ≡ ok a → r ≡ ok a
context_ok what (ok b) h = h
context_ok what (err x) h = absurd (ground arith)

Reflects-account :
    (ts : Tables) (v : ReadModels) (id : String) (row : AccountRow)
    → Reflects ts v
    → Reflects
        (record ts { accounts = insert id row ts.accounts })
        (record v { accounts = insert id (account_shown id row) v.accounts })
Reflects-account ts v id row h = record {
  accounts = λ j. ground (
    arith,
    lookup-insert id j row ts.accounts,
    lookup-insert id j (account_shown id row) v.accounts,
    h.accounts j,
    eq_iff id j,
  );
  inventory = h.inventory;
  checkpoints = h.checkpoints;
}

Reflects-inventory :
    (ts : Tables) (v : ReadModels) (id : String) (row : InventoryRow)
    → Reflects ts v
    → Reflects
        (record ts { inventory = insert id row ts.inventory })
        (record v { inventory = insert id (inventory_shown id row) v.inventory })
Reflects-inventory ts v id row h = record {
  accounts = h.accounts;
  inventory = λ j. ground (
    arith,
    lookup-insert id j row ts.inventory,
    lookup-insert id j (inventory_shown id row) v.inventory,
    h.inventory j,
    eq_iff id j,
  );
  checkpoints = h.checkpoints;
}

-- A checkpoint that moves forward is the greater one.
greatest-forward :
    (old : Option ℤ) (n : ℤ) → (elim old [ none ↦ pos 0 | some c ↦ c ]) <ℤ n → greatest old n ≡ n
greatest-forward none n h = refl
greatest-forward (some c) n h = ground arith

Reflects-checkpoint :
    (stored : Time → Time) (ts : Tables) (v : ReadModels) (name : String) (n : ℤ)
    → Reflects ts v
    → lookup_or (pos 0) name ts.checkpoints <ℤ n
    → Reflects
        (after stored (raise_checkpoint name n) tt ts)
        (record v { checkpoints = insert name n v.checkpoints })
Reflects-checkpoint stored ts v name n h forward = record {
  accounts = h.accounts;
  inventory = h.inventory;
  checkpoints = λ j. rw (greatest-forward (lookup name ts.checkpoints) n forward) (
      ground (
        arith,
        lookup-insert name j n ts.checkpoints,
        lookup-insert name j n v.checkpoints,
        h.checkpoints j,
      ));
}

module _ {D T : Type 0} (db : Database D T) (stored : Time → Time) (p : Serves stored db) where
  -- The tables that a session reads.
  abbrev pub shown_in : D → Option T → Tables
  shown_in pool none = p.stored pool
  shown_in pool (some t) = p.seen t

  abbrev pub shown : Session D T → Tables
  shown s = shown_in s.pool s.tx

  scan_lem :
      (q : Statement) (pool : D) (tx : Option T) {a : Answer q}
      → scan_in db q pool tx ≡ ok a
      → Answers q (shown_in pool tx) a
  scan_lem q pool none h = p.reads q pool h
  scan_lem q pool (some t) h = p.peeks q t h

  query_row_ok :
      (q : Statement) (s : Session D T) {a : Answer q}
      → query_row db q s ≡ ok a
      → Answers q (shown s) a
  unfolding query_row
  query_row_ok q s h = scan_lem q s.pool s.tx h

  exec_lem :
      (q : Statement) (pool : D) (tx : Option T) {a : Answer q}
      → (exec_in db q pool tx).0 ≡ ok a
      → shown (exec_in db q pool tx).1 ≡ after stored q a (shown_in pool tx)
  exec_lem q pool none h = (p.execs q pool h).1
  exec_lem q pool (some t) h = (p.runs q t h).1

  exec_ok :
      (what : String) (q : Statement) (s : Session D T) {a : Answer q}
      → (exec db what q s).0 ≡ ok a
      → shown (exec db what q s).1 ≡ after stored q a (shown s)
  unfolding exec
  exec_ok what q s h = exec_lem q s.pool s.tx (context_ok what _ h)

  module _ (s : Session D T) (v : ReadModels) (r : Reflects (shown s) v) where
    pub get_account_ok :
        (id : String) {found : AccountView × Bool}
        → get_account db id s ≡ ok found
        → Memory.get_account id v ≡ ok found
    unfolding get_account Memory.get_account
    get_account_ok id h = elim (Outcome-cases (query_row db (select_account id) s)) [
      | inr (x, q) ↦ absurd (ground arith)
      | inl (none, q) ↦ ground (arith, query_row_ok (select_account id) s q, r.accounts id)
      | inl (some row, q) ↦ ground (arith, query_row_ok (select_account id) s q, r.accounts id)
    ]

    pub get_inventory_ok :
        (id : String) {found : InventoryView × Bool}
        → get_inventory db id s ≡ ok found
        → Memory.get_inventory id v ≡ ok found
    unfolding get_inventory Memory.get_inventory
    get_inventory_ok id h = elim (Outcome-cases (query_row db (select_inventory id) s)) [
      | inr (x, q) ↦ absurd (ground arith)
      | inl (none, q) ↦ ground (arith, query_row_ok (select_inventory id) s q, r.inventory id)
      | inl (some row, q) ↦ ground (arith, query_row_ok (select_inventory id) s q, r.inventory id)
    ]

    pub get_checkpoint_ok :
        (name : String) {n : ℤ}
        → get_checkpoint db name s ≡ ok n
        → Memory.get_checkpoint name v ≡ ok n
    unfolding get_checkpoint Memory.get_checkpoint
    get_checkpoint_ok name h = elim (Outcome-cases (query_row db (select_checkpoint name) s)) [
      | inr (x, q) ↦ absurd (ground arith)
      | inl (none, q) ↦
          ground (arith, query_row_ok (select_checkpoint name) s q, r.checkpoints name)
      | inl (some c, q) ↦
          ground (arith, query_row_ok (select_checkpoint name) s q, r.checkpoints name)
    ]

    pub upsert_account_ok :
        (view : AccountView)
        → stored view.updated_at ≡ view.updated_at
        → (upsert_account db view s).0 ≡ ok tt
        → Reflects (shown (upsert_account db view s).1) (Memory.upsert_account view v).1
    unfolding upsert_account Memory.upsert_account
    upsert_account_ok view whole h =
        rw (exec_ok "upsert account" _ s h, whole)
          (Reflects-account (shown s) v view.account_id _ r)

    pub upsert_inventory_ok :
        (view : InventoryView)
        → stored view.updated_at ≡ view.updated_at
        → (upsert_inventory db view s).0 ≡ ok tt
        → Reflects (shown (upsert_inventory db view s).1) (Memory.upsert_inventory view v).1
    unfolding upsert_inventory Memory.upsert_inventory
    upsert_inventory_ok view whole h =
        rw (exec_ok "upsert inventory" _ s h, whole)
          (Reflects-inventory (shown s) v view.item_id _ r)

    pub set_checkpoint_ok :
        (name : String) (n : ℤ)
        → lookup_or (pos 0) name v.checkpoints <ℤ n
        → (set_checkpoint db name n s).0 ≡ ok tt
        → Reflects (shown (set_checkpoint db name n s).1) (Memory.set_checkpoint name n v).1
    unfolding set_checkpoint Memory.set_checkpoint
    set_checkpoint_ok name n forward h =
        let on : ltb_ℤ (lookup_or (pos 0) name v.checkpoints) n ≡ true = ground arith in
        let forward' : lookup_or (pos 0) name (shown s).checkpoints <ℤ n =
          rw (r.checkpoints name) at forward in
        rw (exec_ok "set checkpoint" (raise_checkpoint name n) s h, on)
          (Reflects-checkpoint stored (shown s) v name n r forward')
