-- ===== src/Tests/Database.antt =====
-- A database that runs the statements of internal/eventstore/postgres/store.go on the tables themselves.
use streamledger.Prelude.{
  ◌≡◌, refl, ap, ◌∙◌, none, some, List, [], ◌∷◌, arith, if◌then◌else◌, map, select, ℤ, pos, ltb_ℤ,
  ◌+ℤ◌, ◌==◌, lookup,
}
use streamledger.Json.{Payload}
use streamledger.Int64.{add64, IsInt64, wrap64-IsInt64}
use streamledger.Outcome.{Outcome, ok, err, external}
use streamledger.Tests.Served.{served, served-Keeps}
use streamledger.EventStore.{Time, stream_key_eq}
use streamledger.EventStore.Postgres.{
  EventRow, Rows, Statement, Answer, Database, key_exists, insert_key, key_events, ensure_stream,
  lock_version, insert_event, set_version, link_key, stream_events, events_since, max_seq,
}
use streamledger.EventStore.Postgres.Tables.{
  Tables, has_key, has_link, row_key, by_version, limited, largest, Delivers, Answers, after,
  Serves,
}

abbrev pub noon : Time
noon = record { sec = pos 1700000000; nsec = 0 }

-- A server that leaves documents as they are.
abbrev pub same_document : Payload → Payload
same_document x = x

abbrev all_rows : List EventRow → Rows
all_rows rows = record { scans = map ok rows; failure = ok tt }

unfoldable pub answer : (q : Statement) → Tables → Outcome (Answer q)
answer (key_exists d) ts = ok (has_key d ts.keys)
answer (insert_key d) ts = if has_key d ts.keys then err (external "duplicate key value") else ok tt
answer (key_events d) ts =
    ok (all_rows (select (λ row. has_link d row.global_seq ts.links) ts.events))
answer (ensure_stream k) ts = ok tt
answer (lock_version k) ts = elim (lookup k ts.versions) [
  | none ↦ err (external "no rows in result set")
  | some v ↦ ok v
]
answer (insert_event row) ts =
    if ltb_ℤ ts.last_value (add64 ts.last_value (pos 1))
    then ok (add64 ts.last_value (pos 1), noon)
    else err (external "nextval: reached maximum value of sequence")
answer (set_version v k) ts = ok tt
answer (link_key d n) ts = ok tt
answer (stream_events k) ts =
    ok (all_rows (by_version (select (λ row. row_key row == k) ts.events)))
answer (events_since n limit) ts =
    ok (all_rows (limited limit (select (λ row. ltb_ℤ n row.global_seq) ts.events)))
answer max_seq ts = ok (largest ts.events)

abbrev pub tables_database : Database Tables Tables
tables_database = served (after same_document) answer

map_ok_injective : (xs ys : List EventRow) → map ok ys ≡ map ok xs → xs ≡ ys
map_ok_injective [] [] h = refl
map_ok_injective [] (y ∷ ys) h = absurd (ground arith)
map_ok_injective (x ∷ xs) [] h = absurd (ground arith)
map_ok_injective (x ∷ xs) (y ∷ ys) h =
    let one : x ≡ y = ground arith in
    let rest : map ok ys ≡ map ok xs = ground arith in
    let more = map_ok_injective xs ys rest in ground arith

all_rows-Delivers : (rows : List EventRow) {a : Rows} → all_rows rows ≡ a → Delivers a rows
all_rows-Delivers rows same got scans failure =
    map_ok_injective got rows (ap (λ (r : Rows). r.scans) same ∙ scans)

add64-IsInt64 : (a b : ℤ) → IsInt64 (add64 a b)
unfolding add64
add64-IsInt64 a b = wrap64-IsInt64 (a +ℤ b)

pub answer_lem : (q : Statement) (ts : Tables) {a : Answer q} → answer q ts ≡ ok a → Answers q ts a
unfolding answer
answer_lem (key_exists d) ts e = ground arith
answer_lem (insert_key d) ts e = ground arith
answer_lem (key_events d) ts e = all_rows-Delivers _ (ground arith)
answer_lem (ensure_stream k) ts e = tt
answer_lem (lock_version k) ts e = ground arith
answer_lem (insert_event row) ts e = ground (arith, add64-IsInt64 ts.last_value (pos 1))
answer_lem (set_version v k) ts e = tt
answer_lem (link_key d n) ts e = tt
answer_lem (stream_events k) ts e = all_rows-Delivers _ (ground arith)
answer_lem (events_since n limit) ts e = all_rows-Delivers _ (ground arith)
answer_lem max_seq ts e = ground arith

abbrev pub tables_Serves : Serves same_document tables_database
tables_Serves = served-Keeps (after same_document) answer Answers (λ q ts a e. answer_lem q ts e)
