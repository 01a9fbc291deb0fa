-- ===== src/EventStore/Postgres.antt =====
-- internal/eventstore/postgres/store.go: the event log in a Postgres database.
-- The database is a parameter: it runs the statements that the source spells in SQL, one constructor
-- of `Statement` each, and its driver (pgx) reports what came of them.
pub mod Tables
pub mod Steps
pub mod Invariant
pub mod Reads
pub mod Pages
pub mod Queries
pub mod Batch
pub mod Causes
pub mod Endings
pub mod Fulfils
use Prim.Native.String.{◌++◌ as str_append}
use streamledger.Prelude.{
  Bool, true, false, not, ◌&&◌, Option, none, some, List, [], ◌∷◌, String, if◌then◌else◌, ℤ, pos,
  ltb_ℤ, eqb_ℤ, ◌==◌, string_eq,
}
use streamledger.Int64.{add64}
use streamledger.Outcome.{Error, Outcome, ok, err, external, version_conflict, wrap_error}
use streamledger.Action.{Action, lift, ◌>>=◌}
use streamledger.Sql.{Connection}
use streamledger.Json.{Payload}
use streamledger.EventStore.{
  Time, Metadata, AppendEvent, Event, Store, StreamKey, target, no_version_check,
}

-- A row of the table `events`; the two nullable columns are options.
pub record EventRow : Type 0 where
  pub global_seq : ℤ
  pub aggregate_type : String
  pub aggregate_id : String
  pub version : ℤ
  pub event_type : String
  pub payload : Payload
  pub dedupe_key : Option String
  pub correlation_id : Option String
  pub created_at : Time

-- The values of `INSERT INTO events`.
pub record NewRow : Type 0 where
  pub aggregate_type : String
  pub aggregate_id : String
  pub version : ℤ
  pub event_type : String
  pub payload : Payload
  pub dedupe_key : Option String

-- pgx.Rows: what each `Scan` gives, and `Err` after the last row.
pub record Rows : Type 0 where
  pub scans : List (Outcome EventRow)
  pub failure : Outcome (Unit {0})

pub data Statement : Type 0 where
  -- SELECT EXISTS(… FROM idempotency_keys WHERE dedupe_key = $1 …)
  key_exists : String → Statement
  -- INSERT INTO idempotency_keys (dedupe_key) VALUES ($1)
  insert_key : String → Statement
  -- SELECT … FROM idempotency_key_events ike JOIN events e … ORDER BY e.global_seq
  key_events : String → Statement
  -- INSERT INTO stream_versions … VALUES ($1, $2, 0) ON CONFLICT … DO NOTHING
  ensure_stream : StreamKey → Statement
  -- SELECT version FROM stream_versions … FOR UPDATE
  lock_version : StreamKey → Statement
  -- INSERT INTO events … RETURNING global_seq, created_at
  insert_event : NewRow → Statement
  -- UPDATE stream_versions SET version = $1 …
  set_version : ℤ → StreamKey → Statement
  -- INSERT INTO idempotency_key_events (dedupe_key, global_seq) VALUES ($1, $2)
  link_key : String → ℤ → Statement
  -- SELECT … FROM events WHERE aggregate_type = $1 AND aggregate_id = $2 ORDER BY version
  stream_events : StreamKey → Statement
  -- SELECT … FROM events WHERE global_seq > $1 ORDER BY global_seq [LIMIT $2]
  events_since : ℤ → Option ℤ → Statement
  -- SELECT COALESCE(MAX(global_seq), 0) FROM events
  max_seq : Statement

-- What a statement is scanned into.
abbrev pub Answer : Statement → Type 0
Answer (key_exists d) = Bool
Answer (insert_key d) = Unit {0}
Answer (key_events d) = Rows
Answer (ensure_stream k) = Unit {0}
Answer (lock_version k) = ℤ
Answer (insert_event row) = ℤ × Time
Answer (set_version v k) = Unit {0}
Answer (link_key d n) = Unit {0}
Answer (stream_events k) = Rows
Answer (events_since after limit) = Rows
Answer max_seq = ℤ

-- The pool, and the transactions that run on it.
abbrev pub Database : Type 0 → Type 0 → Type 0
Database = Connection Answer

-- `*dedupe`, and "" for nil
abbrev pub text_or_empty : Option String → String
text_or_empty none = ""
text_or_empty (some s) = s

abbrev pub scan_event : EventRow → Event
scan_event row = record {
  global_seq = row.global_seq;
  aggregate_type = row.aggregate_type;
  aggregate_id = row.aggregate_id;
  version = row.version;
  event_type = row.event_type;
  payload = row.payload;
  metadata = record {
    dedupe_key = text_or_empty row.dedupe_key;
    correlation_id = text_or_empty row.correlation_id;
  };
  created_at = row.created_at;
}

-- fmt.Errorf("postgres store: …: %w", err): the errors of the driver are no version conflicts.
abbrev pub context {ℓ} : {A : Type ℓ} → String → Outcome A → Outcome A
context what = wrap_error (external (str_append "postgres store: " what))

-- The loop `for rows.Next() { … }`, and `return out, rows.Err()`.
unfoldable pub collect :
    String → List (Outcome EventRow) → Outcome (Unit {0}) → Outcome (List Event)
collect what [] (ok _) = ok []
collect what [] (err e) = err e
collect what (err e ∷ scans) failure = context what (err e)
collect what (ok row ∷ scans) failure = elim (collect what scans failure) [
  | err e ↦ err e
  | ok events ↦ ok (scan_event row ∷ events)
]

abbrev pub collect_rows : String → Rows → Outcome (List Event)
collect_rows what rows = collect what rows.scans rows.failure

module _ {D T : Type 0} (db : Database D T) where
  -- `tx.Exec` and `tx.QueryRow(…).Scan`
  unfoldable pub query : (q : Statement) → String → Action T (Answer q)
  query q what t = let (r, t') = db.run q t in (context what r, t')

  -- `loadDedupeEvents`, inside a transaction
  unfoldable pub load_dedupe_events : String → Action T (List Event)
  load_dedupe_events dedupe_key = query (key_events dedupe_key) "query dedupe events" >>= λ rows.
      lift (collect_rows "scan dedupe event" rows)

  -- The events of an earlier call; otherwise the key is reserved.
  unfoldable pub reserve : String → Action T (Option (List Event))
  reserve dedupe_key t =
      if dedupe_key == ""
      then (ok none, t)
      else (query (key_exists dedupe_key) "check dedupe" >>= λ exists.
            if exists
            then (load_dedupe_events dedupe_key >>= λ events. lift (ok (some events)))
            else (query (insert_key dedupe_key) "reserve dedupe key" >>= λ _. lift (ok none)))
          t

  -- `if dedupeKey != "" { tx.Exec(… idempotency_key_events …) }`
  unfoldable pub link : String → ℤ → Action T (Unit {0})
  link dedupe_key global_seq t =
      if dedupe_key == ""
      then (ok tt, t)
      else query (link_key dedupe_key global_seq) "link dedupe event" t

  -- The event of one turn of the loop of `Append`, once its stream row is locked at `current`.
  unfoldable pub insert_one : String → AppendEvent → ℤ → Action T Event
  insert_one dedupe_key e current =
      let new_version = add64 current (pos 1) in
      query
        (insert_event (record {
          aggregate_type = e.aggregate_type;
          aggregate_id = e.aggregate_id;
          version = new_version;
          event_type = e.event_type;
          payload = e.payload;
          dedupe_key = if dedupe_key == "" then none else some dedupe_key;
        }))
        "insert event"
      >>= λ inserted. query (set_version new_version (target e)) "bump stream version" >>= λ _.
          link dedupe_key inserted.0 >>= λ _. lift (
            ok (record {
              global_seq = inserted.0;
              aggregate_type = e.aggregate_type;
              aggregate_id = e.aggregate_id;
              version = new_version;
              event_type = e.event_type;
              payload = e.payload;
              metadata = record { dedupe_key = dedupe_key; correlation_id = "" };
              created_at = inserted.1;
            }))

  -- One turn of the loop of `Append`.
  unfoldable pub append_one : String → AppendEvent → Action T Event
  append_one dedupe_key e = query (ensure_stream (target e)) "ensure stream row" >>= λ _.
      query (lock_version (target e)) "lock stream row" >>= λ current.
      if not (eqb_ℤ e.expected_version no_version_check) && not (eqb_ℤ e.expected_version current)
      then lift (err version_conflict)
      else insert_one dedupe_key e current

  unfoldable pub append_all : String → List AppendEvent → Action T (List Event)
  append_all dedupe_key [] = lift (ok [])
  append_all dedupe_key (e ∷ batch) = append_one dedupe_key e >>= λ event.
      append_all dedupe_key batch >>= λ produced. lift (ok (event ∷ produced))

  -- What `Append` does between `Begin` and `Commit`.
  unfoldable pub append_in : String → List AppendEvent → Action T (List Event × Bool)
  append_in dedupe_key batch = reserve dedupe_key >>= λ prior. elim prior [
    | some events ↦ lift (ok (events, true))
    | none ↦ append_all dedupe_key batch >>= λ produced. lift (ok (produced, false))
  ]

  -- `tx.Commit`, and the deferred `tx.Rollback` when there is an error.
  unfoldable pub finish : {A : Type 0} → String → A → T → Action D A
  finish what a t s =
      let (r, s') = db.commit t s in
      elim (context what r) [ err e ↦ (err e, db.rollback t s') | ok _ ↦ (ok a, s') ]

  unfoldable pub append : String → List AppendEvent → Action D (List Event × Bool)
  append dedupe_key batch s = elim (context "begin tx" (db.begin s)) [
    | err e ↦ (err e, s)
    | ok t ↦
        let (r, t') = append_in dedupe_key batch t in
        elim r [
          | err e ↦ (err e, db.rollback t' s)
          | ok (events, dup) ↦
              finish (if dup then "commit dedupe read" else "commit") (events, dup) t' s
        ]
  ]

  unfoldable pub load_stream : String → String → D → Outcome (List Event)
  load_stream aggregate_type aggregate_id s =
      elim (context "load stream" (
        db.read
          (stream_events (record { aggregate_type = aggregate_type; aggregate_id = aggregate_id }))
          s)) [ err e ↦ err e | ok rows ↦ collect_rows "scan event" rows ]

  unfoldable pub load_since : ℤ → ℤ → D → Outcome (List Event)
  load_since after_global_seq limit s =
      elim (context "load since" (
        db.read (events_since after_global_seq (if ltb_ℤ (pos 0) limit then some limit else none))
          s)) [ err e ↦ err e | ok rows ↦ collect_rows "scan event" rows ]

  unfoldable pub latest_global_seq : D → Outcome ℤ
  latest_global_seq s = context "latest global seq" (db.read max_seq s)

  -- `loadDedupeEvents` on the pool
  unfoldable pub read_dedupe_events : String → D → Outcome (List Event)
  read_dedupe_events dedupe_key s =
      elim (context "query dedupe events" (db.read (key_events dedupe_key) s)) [
        | err e ↦ err e
        | ok rows ↦ collect_rows "scan dedupe event" rows
      ]

  unfoldable pub lookup_dedupe : String → D → Outcome (List Event × Bool)
  lookup_dedupe dedupe_key s =
      if dedupe_key == ""
      then ok ([], false)
      else elim (context "lookup dedupe" (db.read (key_exists dedupe_key) s)) [
        | err e ↦ err e
        | ok exists ↦
            if exists
            then elim (read_dedupe_events dedupe_key s) [
              | err e ↦ err e
              | ok events ↦ ok (events, true)
            ]
            else ok ([], false)
      ]

  -- `var _ eventstore.Store = (*Store)(nil)`
  abbrev pub postgres_store : Store D
  postgres_store = record {
    append = append;
    load_stream = load_stream;
    load_since = load_since;
    latest_global_seq = latest_global_seq;
    lookup_dedupe = lookup_dedupe;
  }
