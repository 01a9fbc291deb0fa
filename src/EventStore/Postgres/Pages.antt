-- ===== src/EventStore/Postgres/Pages.antt =====
-- Rows that the reads of internal/eventstore/postgres/store.go bring back, page by page.
use streamledger.Prelude.{
  ℕ, zero, suc, negsuc, ltb_ℤ, ◌≡◌, ◌<ℤ◌, sym, refl, ap, true, false, none, some, List, [], ◌∷◌,
  map, String, arith, if◌then◌else◌, ℤ, pos, string_eq,
}
use streamledger.Outcome.{Error, Outcome, ok, err}
use streamledger.EventStore.{Event, stream_key_eq}
use streamledger.EventStore.Numbering.{Ascending}
use streamledger.EventStore.Memory.Since.{take, page}
use streamledger.EventStore.Postgres.{EventRow, Rows, collect_rows, scan_event, context}
use streamledger.EventStore.Postgres.Tables.{first_rows, limited, largest}
use streamledger.EventStore.Postgres.Reads.{collect_err, Failed, Brought}

-- How the reads of rows are put together.
abbrev pub scanned : String → String → Outcome Rows → Outcome (List Event)
scanned what each got = elim (context what got) [ err e ↦ err e | ok rows ↦ collect_rows each rows ]

pub scanned-Failed :
    (what each : String) (got : Outcome Rows) {x : Error}
    → scanned what each got ≡ err x
    → Failed got
scanned-Failed what each (err y) h = tt
scanned-Failed what each (ok rows) h =
    λ all scans fine. collect_err each all (rw (scans, fine) at h)

pub scanned-Brought :
    (what each : String) (got : Outcome Rows) (r : Outcome (List Event)) (expected : List Event)
    → r ≡ scanned what each got
    → ((events : List Event) → r ≡ ok events → events ≡ expected)
    → Brought got r expected
scanned-Brought what each got (ok events) expected same right = right events refl
scanned-Brought what each got (err x) expected same right = scanned-Failed what each got (sym same)

pub first_rows-page :
    (n : ℕ) (rows : List EventRow)
    → map scan_event (first_rows n rows) ≡ take n (map scan_event rows)
first_rows-page zero rows = refl
first_rows-page (suc n) [] = refl
first_rows-page (suc n) (row ∷ rows) = ap (λ l. scan_event row ∷ l) (first_rows-page n rows)

pub limited-page :
    (limit : ℤ) (rows : List EventRow)
    → map scan_event (limited (if ltb_ℤ (pos 0) limit then some limit else none) rows)
      ≡ page limit (map scan_event rows)
limited-page (pos zero) rows = refl
limited-page (pos (suc n)) rows =
    let on : ltb_ℤ (pos 0) (pos (suc n)) ≡ true = ground arith in
    rw on (first_rows-page (suc n) rows)
limited-page (negsuc n) rows =
    let off : ltb_ℤ (pos 0) (negsuc n) ≡ false = ground arith in rw off refl

-- The number of the last event, and 0 where there is none.
abbrev pub last_seq : List Event → ℤ
last_seq [] = pos 0
last_seq (e ∷ []) = e.global_seq
last_seq (e ∷ events) = last_seq events

pub last_seq_above :
    (v : ℤ) (e : Event) (events : List Event)
    → Ascending (λ e. e.global_seq) v (e ∷ events)
    → v <ℤ last_seq (e ∷ events)
last_seq_above v e [] rise = rise.0
last_seq_above v e (x ∷ events) rise =
    omega (arith, rise.0, last_seq_above e.global_seq x events rise.1)

-- In a log whose numbers rise, the largest number is the last event's.
pub largest_last :
    (v : ℤ) (rows : List EventRow)
    → Ascending (λ e. e.global_seq) v (map scan_event rows)
    → largest rows ≡ last_seq (map scan_event rows)
largest_last v [] rise = refl
largest_last v (row ∷ []) rise = refl
largest_last v (row ∷ next ∷ rows) rise =
    let rest = largest_last row.global_seq (next ∷ rows) rise.1 in
    let above = last_seq_above row.global_seq (scan_event next) (map scan_event rows) rise.1 in
    let below : ltb_ℤ row.global_seq (largest (next ∷ rows)) ≡ true =
      rw rest (ground (arith, above)) in
    rw below rest
