-- ===== src/EventStore/Postgres/Tables.antt =====
-- What the database promises of the statements: the tables of internal/eventstore/postgres/schema,
-- and what each statement reads and writes there, by the documentation of PostgreSQL.
-- Transactions run one after another, the rows of `events` are listed in the order of their sequence
-- numbers, and a rolled back transaction leaves no trace. A column of type JSONB holds `jsonb` of the
-- document, a parameter: the server orders the keys anew.
use streamledger.Prelude.{
  ℕ, zero, suc, ◌≡◌, Bool, false, ◌&&◌, ◌||◌, Option, none, some, List, [], ◌∷◌, ◌++◌, String,
  if◌then◌else◌, map, select, ℤ, pos, pos_part, ltb_ℤ, eqb_ℤ, ◌<ℤ◌, ◌==◌, string_eq, Map, lookup,
  insert,
}
use streamledger.Int64.{IsInt64}
use streamledger.Outcome.{ok}
use streamledger.Json.{Payload}
use streamledger.Sql.{Keeps}
use streamledger.EventStore.{Time, Event, StreamKey, stream_key_eq}
use streamledger.EventStore.Postgres.{
  EventRow, NewRow, Rows, Statement, Answer, Database, key_exists, insert_key, key_events,
  ensure_stream, lock_version, insert_event, set_version, link_key, stream_events, events_since,
  max_seq,
}

-- The tables idempotency_keys, idempotency_key_events, stream_versions and events, and the last
-- value that was drawn for `global_seq BIGSERIAL`.
pub record Tables : Type 0 where
  pub keys : List String
  pub links : List (String × ℤ)
  pub versions : Map StreamKey ℤ
  pub events : List EventRow
  pub last_value : ℤ

-- What schema/0001_events.sql creates.
abbrev pub no_rows : Tables
no_rows = record { keys = []; links = []; versions = []; events = []; last_value = pos 0 }

abbrev pub has_key : String → List String → Bool
has_key d [] = false
has_key d (x ∷ keys) = x == d || has_key d keys

abbrev pub has_link : String → ℤ → List (String × ℤ) → Bool
has_link d n [] = false
has_link d n ((x, m) ∷ links) = (x == d && eqb_ℤ m n) || has_link d n links

abbrev pub row_key : EventRow → StreamKey
row_key row = record { aggregate_type = row.aggregate_type; aggregate_id = row.aggregate_id }

-- ORDER BY version
abbrev pub place : EventRow → List EventRow → List EventRow
place row [] = row ∷ []
place row (x ∷ rows) =
    let rest = place row rows in if ltb_ℤ x.version row.version then x ∷ rest else row ∷ x ∷ rows

abbrev pub by_version : List EventRow → List EventRow
by_version [] = []
by_version (row ∷ rows) = place row (by_version rows)

-- LIMIT
abbrev pub first_rows : ℕ → List EventRow → List EventRow
first_rows zero rows = []
first_rows (suc n) [] = []
first_rows (suc n) (row ∷ rows) = row ∷ first_rows n rows

abbrev pub limited : Option ℤ → List EventRow → List EventRow
limited none rows = rows
limited (some n) rows = first_rows (pos_part n) rows

-- COALESCE(MAX(…), 0)
abbrev pub larger : ℤ → ℤ → ℤ
larger a b = if ltb_ℤ a b then b else a

abbrev pub largest : List EventRow → ℤ
largest [] = pos 0
largest (row ∷ []) = row.global_seq
largest (row ∷ next ∷ rows) = larger row.global_seq (largest (next ∷ rows))

abbrev pub row_of : (Payload → Payload) → NewRow → ℤ × Time → EventRow
row_of jsonb new drawn = record {
  global_seq = drawn.0;
  aggregate_type = new.aggregate_type;
  aggregate_id = new.aggregate_id;
  version = new.version;
  event_type = new.event_type;
  payload = jsonb new.payload;
  dedupe_key = new.dedupe_key;
  correlation_id = none;
  created_at = drawn.1;
}

-- When every row is scanned and the iteration ends without an error, these are the rows.
abbrev pub Delivers : Rows → List EventRow → Type 0
Delivers answer expected =
    (rows : List EventRow) → answer.scans ≡ map ok rows → answer.failure ≡ ok tt → rows ≡ expected

-- What a statement answers from the tables.
abbrev pub Answers : (q : Statement) → Tables → Answer q → Type 0
Answers (key_exists d) ts a = a ≡ has_key d ts.keys
Answers (insert_key d) ts a = has_key d ts.keys ≡ false
Answers (key_events d) ts a =
    Delivers a (select (λ row. has_link d row.global_seq ts.links) ts.events)
Answers (ensure_stream k) ts a = Unit
Answers (lock_version k) ts a = lookup k ts.versions ≡ some a
Answers (insert_event row) ts a = (ts.last_value <ℤ a.0) × IsInt64 (a.0)
Answers (set_version v k) ts a = Unit
Answers (link_key d n) ts a = Unit
Answers (stream_events k) ts a =
    Delivers a (by_version (select (λ row. row_key row == k) ts.events))
Answers (events_since after limit) ts a =
    Delivers a (limited limit (select (λ row. ltb_ℤ after row.global_seq) ts.events))
Answers max_seq ts a = a ≡ largest ts.events

-- The tables after a statement that gave this answer.
abbrev pub after : (Payload → Payload) → (q : Statement) → Answer q → Tables → Tables
after jsonb (insert_key d) a ts = record ts { keys = d ∷ ts.keys }
after jsonb (ensure_stream k) a ts = elim (lookup k ts.versions) [
  | none ↦ record ts { versions = insert k (pos 0) ts.versions }
  | some v ↦ ts
]
after jsonb (insert_event row) a ts = record ts {
  events = ts.events ++ row_of jsonb row a ∷ [];
  last_value = a.0;
}
after jsonb (set_version v k) a ts = elim (lookup k ts.versions) [
  | none ↦ ts
  | some old ↦ record ts { versions = insert k v ts.versions }
]
after jsonb (link_key d n) a ts = record ts { links = (d, n) ∷ ts.links }
after jsonb (key_exists d) a ts = ts
after jsonb (key_events d) a ts = ts
after jsonb (lock_version k) a ts = ts
after jsonb (stream_events k) a ts = ts
after jsonb (events_since n limit) a ts = ts
after jsonb max_seq a ts = ts

-- What the database promises.
abbrev pub Serves : {D T : Type 0} → (Payload → Payload) → Database D T → Type 0
Serves jsonb = Keeps Answers (after jsonb)

-- An event as the log holds it.
abbrev pub as_stored : (Payload → Payload) → Event → Event
as_stored jsonb e = record e { payload = jsonb e.payload }
