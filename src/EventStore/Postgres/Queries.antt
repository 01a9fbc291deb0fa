-- ===== src/EventStore/Postgres/Queries.antt =====
-- The reads of the Postgres log (internal/eventstore/postgres/store.go) against the log that the tables hold.
use streamledger.Prelude.{
  ltb_ℤ, select, ◌≡◌, ◌≢◌, ◌⊎◌, sym, inl, inr, refl, ap, ◌∙◌, Bool, true, false, Bool-cases, none,
  some, List, [], map, String, arith, if◌then◌else◌, length, length-select-le, ℤ, pos, ◌==◌,
  string_eq, eq_iff, ◌<◌, ◌^◌,
}
use streamledger.Json.{Payload}
use streamledger.Outcome.{Error, Outcome, ok, err, Outcome-cases}
use streamledger.EventStore.{Event, StreamKey, stream_key_eq, key_of, stream, produced_under}
use streamledger.EventStore.Memory.Since.{page}
use streamledger.EventStore.Postgres.{
  Database, load_since, latest_global_seq, events_since, max_seq, scan_event, context, load_stream,
  lookup_dedupe, read_dedupe_events, stream_events, key_exists, key_events,
}
use streamledger.EventStore.Postgres.Tables.{Serves, has_key}
use streamledger.EventStore.Postgres.Invariant.{IsSound, log_of}
use streamledger.EventStore.Postgres.Reads.{
  context_ok, context_err, Failed, Brought, collected, dedupe_rows, stream_rows, map-select,
  by_version_sorted,
}
use streamledger.EventStore.Postgres.Pages.{
  scanned-Failed, scanned-Brought, limited-page, last_seq, largest_last,
}

module _ {D T : Type 0} (db : Database D T) (jsonb : Payload → Payload) (p : Serves jsonb db) where
  pub loads_lem :
      (k : StreamKey) (s : D) {events : List Event}
      → IsSound (p.stored s)
      → load_stream db k.aggregate_type k.aggregate_id s ≡ ok events
      → events ≡ stream k (log_of (p.stored s))
  unfolding load_stream
  loads_lem k s {events} h e =
      elim (Outcome-cases (context "load stream" (db.read (stream_events k) s))) [
        | inr (x, q) ↦ absurd (ground arith)
        | inl (rows, q) ↦
            let small : length (stream k (log_of (p.stored s))) < 2 ^ 63 = omega (
              arith,
              length-select-le (λ x. key_of x == k) (log_of (p.stored s)),
              h.room,
              h.ranged,
            ) in
            let same = stream_rows k (p.stored s).events in
            let sorted =
              by_version_sorted 0 _ (rw same (omega (arith, small))) (rw same (h.versioned k)) in
            collected "scan event" rows _
              (p.reads (stream_events k) s
                (context_ok "load stream" (db.read (stream_events k) s) q))
              (ground arith)
            ∙ ap (map scan_event) sorted
            ∙ same
      ]

  read_dedupe_events_ok :
      (d : String) (s : D) {events : List Event}
      → d ≢ ""
      → IsSound (p.stored s)
      → read_dedupe_events db d s ≡ ok events
      → events ≡ produced_under d (log_of (p.stored s))
  unfolding read_dedupe_events
  read_dedupe_events_ok d s {events} ne h e =
      elim (Outcome-cases (context "query dedupe events" (db.read (key_events d) s))) [
        | inr (x, q) ↦ absurd (ground arith)
        | inl (rows, q) ↦
            collected "scan dedupe event" rows _
              (p.reads (key_events d) s
                (context_ok "query dedupe events" (db.read (key_events d) s) q))
              (ground arith)
            ∙ dedupe_rows d (p.stored s) ne h.linked
      ]

  -- How the look-up of a key may end.
  abbrev pub Found : String → D → List Event → Bool → Type 0
  Found d s events true =
      (d ≢ "")
      × (has_key d (p.stored s).keys ≡ true)
      × (events ≡ produced_under d (log_of (p.stored s)))
  Found d s events false =
      (events ≡ [])
      × (d ≢ "" → has_key d (p.stored s).keys ≡ false)
      × (d ≢ "" → produced_under d (log_of (p.stored s)) ≡ [])

  pub lookup_lem :
      (d : String) (s : D) {events : List Event} {found : Bool}
      → IsSound (p.stored s)
      → lookup_dedupe db d s ≡ ok (events, found)
      → Found d s events found
  unfolding lookup_dedupe
  lookup_lem d s {events} {found} h e = elim (Bool-cases (d == "")) [
    | inl empty ↦
        let is : d ≡ "" = (eq_iff d "").0 empty in
        let q : ok ([], false) ≡ ok (events, found) = rw empty at e in
        let none_found : false ≡ found = ground arith in
        let no_events : events ≡ [] = ground arith in
        rw (← none_found) (no_events, λ ne. absurd (ne is), λ ne. absurd (ne is))
    | inr key ↦ elim (Outcome-cases (context "lookup dedupe" (db.read (key_exists d) s))) [
      | inr (x, q) ↦ absurd (ground arith)
      | inl (false, q) ↦
          let unused : has_key d (p.stored s).keys ≡ false =
            sym (
              p.reads (key_exists d) s (context_ok "lookup dedupe" (db.read (key_exists d) s) q)) in
          let r : ok ([], false) ≡ ok (events, found) = rw (key, q) at e in
          let none_found : false ≡ found = ground arith in
          let no_events : events ≡ [] = ground arith in
          rw (← none_found) (no_events, λ _. unused, λ ne. h.keyed d ne unused)
      | inl (true, q) ↦ elim (Outcome-cases (read_dedupe_events db d s)) [
        | inr (x, r) ↦ absurd (ground arith)
        | inl (got, r) ↦
            let ne : d ≢ "" = λ is. (let t : (d == "") ≡ true = (eq_iff d "").1 is in cc) in
            let used : has_key d (p.stored s).keys ≡ true = sym (
              p.reads (key_exists d) s (context_ok "lookup dedupe" (db.read (key_exists d) s) q)) in
            let same : ◌≡◌ {A = Outcome (List Event × Bool)} (ok (got, true)) (ok (events, found)) =
              ground arith in
            let is_found : true ≡ found = ground arith in
            let is : events ≡ got = ground arith in
            rw (← is_found) (ne, used, is ∙ read_dedupe_events_ok d s ne h r)
      ]
    ]
  ]

  since_lem :
      (after limit : ℤ) (s : D) {events : List Event}
      → load_since db after limit s ≡ ok events
      → events ≡ page limit (select (λ e. ltb_ℤ after e.global_seq) (log_of (p.stored s)))
  unfolding load_since
  since_lem after limit s {events} e =
      let q = events_since after (if ltb_ℤ (pos 0) limit then some limit else none) in
      elim (Outcome-cases (context "load since" (db.read q s))) [
        | inr (x, r) ↦ absurd (ground arith)
        | inl (rows, r) ↦
            collected "scan event" rows _ (p.reads q s (context_ok "load since" (db.read q s) r))
              (ground arith)
            ∙ limited-page limit _
            ∙ ap (page limit) (map-select _ _ (λ row. refl) (p.stored s).events)
      ]

  latest_lem :
      (s : D) {n : ℤ}
      → IsSound (p.stored s)
      → latest_global_seq db s ≡ ok n
      → n ≡ last_seq (log_of (p.stored s))
  unfolding latest_global_seq
  latest_lem s h e =
      p.reads max_seq s (context_ok "latest global seq" (db.read max_seq s) e)
      ∙ largest_last (pos 0) (p.stored s).events h.rising

  -- The number that `LatestGlobalSeq` reports.
  abbrev pub Latest : D → Outcome ℤ → Type 0
  Latest s (ok n) = n ≡ last_seq (log_of (p.stored s))
  Latest s (err x) = (y : Error) × (db.read max_seq s ≡ err y)

  latest_global_seq-Latest : (s : D) → IsSound (p.stored s) → Latest s (latest_global_seq db s)
  latest_global_seq-Latest s h = elim (Outcome-cases (latest_global_seq db s)) [
    | inl (n, q) ↦ rw q (latest_lem s h q)
    | inr (x, q) ↦
        rw q (unfold latest_global_seq in context_err "latest global seq" (db.read max_seq s) q)
  ]

  -- What `LookupDedupe` reports.
  abbrev pub Looked : String → D → Outcome (List Event × Bool) → Type 0
  Looked d s (ok (events, found)) = Found d s events found
  Looked d s (err x) =
      ((y : Error) × (db.read (key_exists d) s ≡ err y)) ⊎ Failed (db.read (key_events d) s)

  lookup_err :
      (d : String) (s : D) {x : Error}
      → lookup_dedupe db d s ≡ err x
      → ((y : Error) × (db.read (key_exists d) s ≡ err y)) ⊎ Failed (db.read (key_events d) s)
  unfolding lookup_dedupe
  lookup_err d s {x} h = elim (Bool-cases (d == "")) [
    | inl empty ↦ let bad : ok ([], false) ≡ err x = rw empty at h in absurd (ground arith)
    | inr key ↦ elim (Outcome-cases (context "lookup dedupe" (db.read (key_exists d) s))) [
      | inr (y, q) ↦ inl (context_err "lookup dedupe" (db.read (key_exists d) s) q)
      | inl (false, q) ↦ absurd (ground arith)
      | inl (true, q) ↦ elim (Outcome-cases (read_dedupe_events db d s)) [
        | inl (got, r) ↦ absurd (ground arith)
        | inr (y, r) ↦ inr (
            unfold read_dedupe_events in
            scanned-Failed "query dedupe events" "scan dedupe event" (db.read (key_events d) s) r)
      ]
    ]
  ]

  lookup_dedupe-Looked :
      (d : String) (s : D) → IsSound (p.stored s) → Looked d s (lookup_dedupe db d s)
  lookup_dedupe-Looked d s h = elim (Outcome-cases (lookup_dedupe db d s)) [
    | inl ((events, found), q) ↦ rw q (lookup_lem d s h q)
    | inr (x, q) ↦ rw q (lookup_err d s q)
  ]

  -- On a database that keeps its promises and whose tables are sound, the reads bring back what is the
  -- log's, unless the driver reports an error for their statements: a stream is the events of its
  -- key in log order, which is the order of their versions; loading since a sequence number gives
  -- the events with larger numbers, cut to the limit where that is positive; the latest number is
  -- that of the last event, or 0; a key that was found is not empty, was reserved, and comes with
  -- all events that it produced; and a key that was not found comes with no events, and is empty or
  -- was neither reserved nor has produced any.
  pub reads_exact :
      (s : D)
      → IsSound (p.stored s)
      → ((k : StreamKey)
          → Brought
              (db.read (stream_events k) s)
              (load_stream db k.aggregate_type k.aggregate_id s)
              (stream k (log_of (p.stored s))))
        × ((after limit : ℤ)
            → Brought
                (db.read (events_since after (if ltb_ℤ (pos 0) limit then some limit else none)) s)
                (load_since db after limit s)
                (page limit (select (λ e. ltb_ℤ after e.global_seq) (log_of (p.stored s)))))
        × Latest s (latest_global_seq db s)
        × ((d : String) → Looked d s (lookup_dedupe db d s))
  reads_exact s h = (
    λ k.
        scanned-Brought "load stream" "scan event" _ _ _ (unfold load_stream in refl)
          (λ events e. loads_lem k s h e),
    λ after limit.
        scanned-Brought "load since" "scan event" _ _ _ (unfold load_since in refl)
          (λ events e. since_lem after limit s e),
    latest_global_seq-Latest s h,
    λ d. lookup_dedupe-Looked d s h,
  )
