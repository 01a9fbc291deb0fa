-- ===== src/EventStore/Memory.antt =====
-- internal/eventstore/memory/store.go: the in-process event log. Every method holds the mutex from
-- beginning to end, so a call is one step on the state.
pub mod Counting
pub mod Cases
pub mod Invariant
pub mod Validation
pub mod Fulfils
pub mod Since
use streamledger.Prelude.{
  ℕ, suc, ◌≤◌, ◌≡◌, Bool, true, false, not, ◌&&◌, Option, none, some, List, [], ◌∷◌, ◌++◌, String,
  if◌then◌else◌, select, ℤ, pos, ltb_ℤ, leb_ℤ, eqb_ℤ, ◌==◌, string_eq, Map, lookup, lookup_or,
  insert,
}
use streamledger.Int64.{add64, int64}
use streamledger.Outcome.{Outcome, ok, err, version_conflict}
use streamledger.EventStore.{
  Time, Metadata, AppendEvent, Event, Store, StreamKey, stream_key_eq, key_of, target,
  no_version_check, stream,
}

-- `now` is the clock, as its successive readings, of which `readings` have been taken.
pub record MemoryStore : Type 0 where
  pub global_seq : ℤ
  pub events : List Event
  pub versions : Map StreamKey ℤ
  pub dedupe : Map String (List Event)
  pub now : ℕ → Time
  pub readings : ℕ

-- `New` with the clock `now`
abbrev pub new : (ℕ → Time) → MemoryStore
new now = record {
  global_seq = pos 0;
  events = [];
  versions = [];
  dedupe = [];
  now = now;
  readings = 0;
}

-- `WithClock`
abbrev pub with_clock : (ℕ → Time) → MemoryStore → MemoryStore
with_clock now s = record s { now = now; readings = 0 }

-- `s.dedupe[dedupeKey]`, behind the test that the key is not empty
unfoldable pub prior_events : String → MemoryStore → Option (List Event)
prior_events dedupe_key s = if dedupe_key == "" then none else lookup dedupe_key s.dedupe

-- The first loop of `Append`: every expected version is checked, against the store and what the
-- batch itself will add, before anything is written.
unfoldable pub validate : Map StreamKey ℤ → Map StreamKey ℤ → List AppendEvent → Outcome (Unit {0})
validate versions pending [] = ok tt
validate versions pending (e ∷ batch) =
    let cur : ℤ = elim (lookup (target e) pending) [
      | some seen ↦ seen
      | none ↦ lookup_or (pos 0) (target e) versions
    ] in
    let rest = validate versions (insert (target e) (add64 cur (pos 1)) pending) batch in
    if not (eqb_ℤ e.expected_version no_version_check) && not (eqb_ℤ e.expected_version cur)
    then err version_conflict
    else rest

-- One turn of the second loop: the event that is written, and the store after it.
unfoldable pub write : String → Time → AppendEvent → MemoryStore → Event × MemoryStore
write dedupe_key now e s =
    let version = add64 (lookup_or (pos 0) (target e) s.versions) (pos 1) in
    let global_seq = add64 s.global_seq (pos 1) in
    let event : Event = record {
      global_seq = global_seq;
      aggregate_type = e.aggregate_type;
      aggregate_id = e.aggregate_id;
      version = version;
      event_type = e.event_type;
      payload = e.payload;
      metadata = record { dedupe_key = dedupe_key; correlation_id = "" };
      created_at = now;
    } in
    (
      event,
      record s {
        global_seq = global_seq;
        versions = insert (target e) version s.versions;
        events = s.events ++ event ∷ [];
      },
    )

unfoldable pub write_all : String → Time → List AppendEvent → MemoryStore → List Event × MemoryStore
write_all dedupe_key now [] s = ([], s)
write_all dedupe_key now (e ∷ batch) s =
    let (event, s') = write dedupe_key now e s in
    let (produced, s'') = write_all dedupe_key now batch s' in (event ∷ produced, s'')

-- `if dedupeKey != "" { s.dedupe[dedupeKey] = cached }`
unfoldable pub remember : String → List Event → MemoryStore → MemoryStore
remember dedupe_key produced s =
    if dedupe_key == "" then s else record s { dedupe = insert dedupe_key produced s.dedupe }

unfoldable pub commit : String → List AppendEvent → MemoryStore → List Event × MemoryStore
commit dedupe_key batch s =
    let (produced, s') =
      write_all dedupe_key (s.now s.readings) batch (record s { readings = suc s.readings }) in
    (produced, remember dedupe_key produced s')

unfoldable pub append :
    String → List AppendEvent → MemoryStore → Outcome (List Event × Bool) × MemoryStore
append dedupe_key batch s = elim (prior_events dedupe_key s) [
  | some prior ↦ (ok (prior, true), s)
  | none ↦ elim (validate s.versions [] batch) [
    | err e ↦ (err e, s)
    | ok _ ↦ let (produced, s') = commit dedupe_key batch s in (ok (produced, false), s')
  ]
]

unfoldable pub lookup_dedupe : String → MemoryStore → Outcome (List Event × Bool)
lookup_dedupe dedupe_key s = elim (prior_events dedupe_key s) [
  | none ↦ ok ([], false)
  | some prior ↦ ok (prior, true)
]

unfoldable pub load_stream : String → String → MemoryStore → Outcome (List Event)
load_stream aggregate_type aggregate_id s =
    ok (stream (record { aggregate_type = aggregate_type; aggregate_id = aggregate_id }) s.events)

-- The loop of `LoadSince`, with `n` events taken so far and its early `break`.
unfoldable pub since : ℤ → ℤ → ℕ → List Event → List Event
since after limit n [] = []
since after limit n (e ∷ events) =
    let taken = since after limit (suc n) events in
    let skipped = since after limit n events in
    if ltb_ℤ after e.global_seq
    then (if ltb_ℤ (pos 0) limit && leb_ℤ limit (pos (suc n)) then e ∷ [] else e ∷ taken)
    else skipped

unfoldable pub load_since : ℤ → ℤ → MemoryStore → Outcome (List Event)
unfolding since
load_since after limit s = ok (since after limit 0 s.events)

unfoldable pub latest_global_seq : MemoryStore → Outcome ℤ
latest_global_seq s = ok s.global_seq

-- `var _ eventstore.Store = (*Store)(nil)`
abbrev pub memory_store : Store MemoryStore
memory_store = record {
  append = append;
  load_stream = load_stream;
  load_since = load_since;
  latest_global_seq = latest_global_seq;
  lookup_dedupe = lookup_dedupe;
}
