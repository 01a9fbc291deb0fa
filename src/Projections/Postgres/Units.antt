-- ===== src/Projections/Postgres/Units.antt =====
-- The units of work of a projector (internal/projections/projector.go) on a Postgres database.
use streamledger.Prelude.{
  ℕ, suc, ◌≡◌, ◌≤◌, inl, inr, refl, Bool, none, some, List, [], ◌++◌, String, arith, ℤ,
}
use streamledger.Outcome.{Error, Outcome, ok, err, Outcome-cases}
use streamledger.EventStore.{Time, Event}
use streamledger.Projections.{AccountView, InventoryView}
use streamledger.Projections.Memory
use streamledger.Projections.Memory.{ReadModels}
use streamledger.Projections.Projector.{
  EventApplier, Projector, apply_body, apply_event, apply_batch,
}
use streamledger.Projections.Redelivery.{projector, KeepsCheckpoints}
use streamledger.Projections.Postgres.{
  Database, Session, Statement, Answer, query_row, select_account, select_inventory,
  select_checkpoint, context, with_tx, get_account, get_inventory, get_checkpoint,
}
use streamledger.Projections.Postgres.Tables.{Serves}
use streamledger.Projections.Postgres.Calls.{
  Reflects, shown, context_ok, get_account_ok, get_inventory_ok, get_checkpoint_ok,
}
use streamledger.Projections.Postgres.Body.{Alike, tables_projector, apply_body-FollowsAt}
use streamledger.Projections.Postgres.Closing.{Ended, with_begun-Ended}

-- A query whose statement was answered reports no error.
module _ {D T : Type 0} (db : Database D T) where
  get_account_works :
      (id : String) (s : Session D T) (a : Answer (select_account id))
      → query_row db (select_account id) s ≡ ok a
      → (b : AccountView × Bool) × (get_account db id s ≡ ok b)
  unfolding get_account
  get_account_works id s none h = rw h (_, refl)
  get_account_works id s (some row) h = rw h (_, refl)

  get_inventory_works :
      (id : String) (s : Session D T) (a : Answer (select_inventory id))
      → query_row db (select_inventory id) s ≡ ok a
      → (b : InventoryView × Bool) × (get_inventory db id s ≡ ok b)
  unfolding get_inventory
  get_inventory_works id s none h = rw h (_, refl)
  get_inventory_works id s (some row) h = rw h (_, refl)

  get_checkpoint_works :
      (name : String) (s : Session D T) (a : Answer (select_checkpoint name))
      → query_row db (select_checkpoint name) s ≡ ok a
      → (b : ℤ) × (get_checkpoint db name s ≡ ok b)
  unfolding get_checkpoint
  get_checkpoint_works name s none h = rw h (_, refl)
  get_checkpoint_works name s (some row) h = rw h (_, refl)

module _ {D T : Type 0} (db : Database D T) (stored : Time → Time) (p : Serves stored db) where
  module _ (name : String) {applier : EventApplier (Session D T)} {av : EventApplier ReadModels}
      (alike : Alike db stored p applier av) (keeps : KeepsCheckpoints name av) where
    abbrev on_tables : Projector (Session D T)
    on_tables = tables_projector db stored p name alike

    -- On a database that keeps its promises, and outside of a transaction, applying an event whose time
    -- a column can hold ends in one of three ways: with an error, and the database is as it was;
    -- with an error that COMMIT reported, and the event was applied nevertheless; or with what the
    -- in-process views report. Where the event was applied, the tables reflect what these views
    -- have become. Transactions run one after another.
    pub apply_event_follows :
        (e : Event) (s : Session D T) (v : ReadModels)
        → stored e.created_at ≡ e.created_at
        → s.tx ≡ none
        → Reflects (p.stored s.pool) v
        → Ended db stored p s (apply_event (projector name av) e v) (apply_event on_tables e s)
    unfolding apply_event with_tx Memory.with_tx
    apply_event_follows e s v whole idle r =
        elim (Outcome-cases (context "begin tx" (db.begin s.pool))) [
          | inr (x, q) ↦ rw q (inl refl)
          | inl (t, q) ↦
              let start : Session D T = record { pool = s.pool; tx = some t } in
              let seen : Reflects (p.seen t) v =
                rw (p.begins s.pool (context_ok "begin tx" (db.begin s.pool) q)) r in
              rw q (
                with_begun-Ended db stored p (apply_body on_tables e) s t _ idle (
                  apply_body-FollowsAt db stored p name alike e start v whole keeps (t, refl) seen))
        ]

    -- What a batch has done: the work of the in-process views on a beginning of it. The beginning is
    -- all of it unless an error was reported; at most one event was applied and not counted, which
    -- was the last one, when COMMIT reported the error.
    pub record Worked (events : List Event) (applied : ℕ) (v : ReadModels)
        (x : (ℕ × Outcome (Unit {0})) × Session D T) : Type 0 where
      pub finished : List Event
      pub left : List Event
      pub split : events ≡ finished ++ left
      pub turns : ℕ
      pub views : ReadModels
      pub matched : apply_batch (projector name av) finished applied v ≡ ((turns, ok tt), views)
      pub counted : (x.0.0 ≤ turns) × (turns ≤ suc x.0.0)
      pub idle : x.1.tx ≡ none
      pub reflected : Reflects (p.stored x.1.pool) views
      pub whole : x.0.1 ≡ ok tt → (left ≡ []) × (turns ≡ x.0.0)

  -- A query that answers as the in-process views do, or else reports the driver's error.
  abbrev pub Answered : {A : Type 0} → Statement → Session D T → Outcome A → Outcome A → Type 0
  Answered q s (ok a) y = y ≡ ok a
  Answered q s (err e) y = (x : Error) × (db.read q s.pool ≡ err x)

  answered :
      {A : Type 0} (q : Statement) (s : Session D T) (x y : Outcome A)
      → ((a : A) → x ≡ ok a → y ≡ ok a)
      → ((a : Answer q) → query_row db q s ≡ ok a → (b : A) × (x ≡ ok b))
      → s.tx ≡ none
      → Answered q s x y
  unfolding query_row
  answered q s (ok a) y same works idle = same a refl
  answered q s (err e) y same works idle = elim (Outcome-cases (query_row db q s)) [
    | inl (a, h) ↦ let (b, bad) = works a h in absurd (ground arith)
    | inr (x, h) ↦ (x, rw idle at h)
  ]

  -- On a database that keeps its promises, and outside of a transaction, the queries on tables that
  -- reflect the in-process views answer what those answer, unless the driver reports an error for
  -- the statement.
  pub queries_follow :
      (s : Session D T) (v : ReadModels)
      → s.tx ≡ none
      → Reflects (p.stored s.pool) v
      → ((id : String)
          → Answered (select_account id) s (get_account db id s) (Memory.get_account id v))
        × ((id : String)
            → Answered (select_inventory id) s (get_inventory db id s) (Memory.get_inventory id v))
        × ((name : String)
            → Answered
                (select_checkpoint name)
                s
                (get_checkpoint db name s)
                (Memory.get_checkpoint name v))
  queries_follow s v idle r =
      let at_pool : Reflects (shown db stored p s) v = rw idle r in
      (
        λ id.
            answered (select_account id) s _ _ (λ _ h. get_account_ok db stored p s v at_pool id h)
              (get_account_works db id s) idle,
        λ id.
            answered (select_inventory id) s _ _
              (λ _ h. get_inventory_ok db stored p s v at_pool id h) (get_inventory_works db id s)
              idle,
        λ name.
            answered (select_checkpoint name) s _ _
              (λ _ h. get_checkpoint_ok db stored p s v at_pool name h)
              (get_checkpoint_works db name s) idle,
      )
