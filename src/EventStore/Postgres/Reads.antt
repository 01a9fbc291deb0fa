-- ===== src/EventStore/Postgres/Reads.antt =====
-- The rows of internal/eventstore/postgres/store.go as events of the log.
use streamledger.Prelude.{
  ℕ, suc, ◌≡◌, ◌≢◌, inl, inr, refl, ap, ◌∙◌, Bool, false, List, [], ◌∷◌, String, arith, All, length,
  select, map, ℤ, ltb_ℤ, ◌==◌, string_eq, ◌<◌, ◌^◌, ◌+◌,
}
use streamledger.Int64.{int64, int64-pos}
use streamledger.Outcome.{Error, Outcome, ok, err, Outcome-cases}
use streamledger.EventStore.{Event, StreamKey, stream_key_eq, stream, produced_under}
use streamledger.EventStore.Numbering.{Numbered}
use streamledger.EventStore.Postgres.{EventRow, Rows, context, scan_event, collect, collect_rows}
use streamledger.EventStore.Postgres.Tables.{Tables, Delivers, has_link, row_key, place, by_version}
use streamledger.EventStore.Postgres.Invariant.{IsLinked, log_of}

pub context_ok {ℓ} :
    {A : Type ℓ} (what : String) (r : Outcome A) {a : A} → context what r ≡ ok a → r ≡ ok a
context_ok what (ok b) h = h
context_ok what (err x) h = absurd (ground arith)

pub context_err {ℓ} :
    {A : Type ℓ} (what : String) (r : Outcome A) {x : Error}
    → context what r ≡ err x
    → (y : Error) × (r ≡ err y)
context_err what (ok b) h = absurd (ground arith)
context_err what (err y) h = (y, refl)

-- When every row is scanned and the iteration ends well, the loop reports no error.
pub collect_err :
    (what : String) (all : List EventRow) {x : Error} → collect what (map ok all) (ok tt) ≢ err x
unfolding collect
collect_err what [] h = absurd (ground arith)
collect_err what (row ∷ all) {x} h = elim (Outcome-cases (collect what (map ok all) (ok tt))) [
  | inl (events, q) ↦ absurd (ground arith)
  | inr (y, q) ↦ collect_err what all q
]

-- The driver reported an error for a query, at once or while its rows were read.
abbrev pub Failed : Outcome Rows → Type 0
Failed (err y) = Unit
Failed (ok rows) = (all : List EventRow) → rows.scans ≡ map ok all → rows.failure ≢ ok tt

-- A read brings back what is expected, or the driver reported an error.
abbrev pub Brought : Outcome Rows → Outcome (List Event) → List Event → Type 0
Brought got (ok events) expected = events ≡ expected
Brought got (err x) expected = Failed got

-- Events come out of the loop when each row was scanned and the iteration ended well.
collect_ok :
    (what : String) (scans : List (Outcome EventRow)) (failure : Outcome (Unit {0}))
    {events : List Event}
    → collect what scans failure ≡ ok events
    → (rows : List EventRow) × (scans ≡ map ok rows)
      × (failure ≡ ok tt)
      × (events ≡ map scan_event rows)
unfolding collect
collect_ok what [] (ok u) {events} h = ([], refl, refl, ground arith)
collect_ok what [] (err e) h = absurd (ground arith)
collect_ok what (err e ∷ scans) failure h = absurd (ground arith)
collect_ok what (ok row ∷ scans) failure {events} h =
    elim (Outcome-cases (collect what scans failure)) [
      | inr (x, q) ↦ absurd (ground arith)
      | inl (rest, q) ↦
          let (rows, s, f, e) = collect_ok what scans failure q in
          let here : ok (scan_event row ∷ rest) ≡ ok events = rw q at h in
          let same : events ≡ scan_event row ∷ rest = cc in
          (row ∷ rows, ap (λ l. ok row ∷ l) s, f, same ∙ ap (λ l. scan_event row ∷ l) e)
    ]

pub collected :
    (what : String) (answer : Rows) (expected : List EventRow) {events : List Event}
    → Delivers answer expected
    → collect_rows what answer ≡ ok events
    → events ≡ map scan_event expected
collected what answer expected delivers h =
    let (rows, s, f, e) = collect_ok what answer.scans answer.failure h in
    e ∙ ap (map scan_event) (delivers rows s f)

-- A test of the rows that reads what the events hold.
module _ (p : EventRow → Bool) (q : Event → Bool) where
  pub map-select :
      ((row : EventRow) → p row ≡ q (scan_event row))
      → (rows : List EventRow) → map scan_event (select p rows) ≡ select q (map scan_event rows)
  map-select same [] = refl
  map-select same (row ∷ rows) = ground (arith, same row, map-select same rows)

pub stream_rows :
    (k : StreamKey) (rows : List EventRow)
    → map scan_event (select (λ row. row_key row == k) rows) ≡ stream k (map scan_event rows)
stream_rows k rows = map-select _ _ (λ row. refl) rows

linked_events :
    (d : String) (links : List (String × ℤ)) (events : List Event)
    → d ≢ ""
    → All (IsLinked links) events
    → select (λ e. has_link d e.global_seq links) events ≡ produced_under d events
linked_events d links [] ne h = refl
linked_events d links (e ∷ events) ne h =
    let same = h.0 d ne in let rest = linked_events d links events ne h.1 in rw (same, rest)

-- What the join over the key's links lists is what the key has produced.
pub dedupe_rows :
    (d : String) (ts : Tables)
    → d ≢ ""
    → All (IsLinked ts.links) (log_of ts)
    → map scan_event (select (λ row. has_link d row.global_seq ts.links) ts.events)
      ≡ produced_under d (log_of ts)
dedupe_rows d ts ne h =
    map-select _ (λ e. has_link d e.global_seq ts.links) (λ row. refl) ts.events
    ∙ linked_events d ts.links (log_of ts) ne h

place_first :
    (n : ℕ) (row : EventRow) (rows : List EventRow)
    → suc n + length (map scan_event rows) < 2 ^ 63
    → row.version ≡ int64 (suc n)
    → Numbered (λ e. e.version) (suc n) (map scan_event rows)
    → place row rows ≡ row ∷ rows
place_first n row [] small v h = refl
place_first n row (x ∷ rows) small v h =
    let later : ltb_ℤ x.version row.version ≡ false =
      ground (arith, h.0, int64-pos (suc n) (omega arith), int64-pos (suc (suc n)) (omega arith)) in
    rw later

-- Rows whose versions count up are in the order of their versions.
pub by_version_sorted :
    (n : ℕ) (rows : List EventRow)
    → n + length (map scan_event rows) < 2 ^ 63
    → Numbered (λ e. e.version) n (map scan_event rows)
    → by_version rows ≡ rows
by_version_sorted n [] small h = refl
by_version_sorted n (row ∷ rows) small h =
    ap (place row) (by_version_sorted (suc n) rows (omega arith) h.1)
    ∙ place_first n row rows (omega arith) h.0 h.1
