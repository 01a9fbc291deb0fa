-- ===== src/EventStore/Memory/Fulfils.antt =====
-- The in-process log and the contract of `eventstore.Store`.
use streamledger.Prelude.{
  ◌≡◌, ◌≢◌, inl, inr, refl, ◌∙◌, none, some, true, false, List, [], ◌∷◌, String, arith, string_eq,
  eq_iff, Option-cases, pos, length, ◌<◌, ◌^◌,
}
use streamledger.Outcome.{Error, ok, err}
use streamledger.EventStore.{Time, AppendEvent, Event, StreamKey, stream, produced_under}
use streamledger.EventStore.Numbering.{Ascending, Numbered-Ascending}
use streamledger.EventStore.Contract.{Lawful, Wrote, Recorded}
use streamledger.EventStore.Memory.{
  MemoryStore, memory_store, prior_events, validate, write, write_all, commit, append, load_stream,
  lookup_dedupe,
}
use streamledger.EventStore.Memory.Invariant.{IsValid, append-IsValid, events-commit}
use streamledger.EventStore.Memory.Cases.{append-cases}
use streamledger.EventStore.Memory.Validation.{validate_exact}

Recorded-write_all :
    (d : String) (now : Time) (batch : List AppendEvent) (s : MemoryStore)
    → Recorded d batch (write_all d now batch s).0
unfolding write_all write
Recorded-write_all d now [] s = tt
Recorded-write_all d now (e ∷ batch) s = (
  record { stored_under = refl; stored_type = refl; stored_payload = refl; stored_key = refl },
  Recorded-write_all d now batch (write d now e s).1,
)

Recorded-commit :
    (d : String) (batch : List AppendEvent) (s : MemoryStore)
    → Recorded d batch (commit d batch s).0
unfolding commit
Recorded-commit d batch s = Recorded-write_all d _ batch _

module _ (d : String) (s : MemoryStore) (h : IsValid s) where
  -- a key that was not processed has produced nothing
  fresh_lem : prior_events d s ≡ none → d ≢ "" → produced_under d s.events ≡ []
  unfolding prior_events
  fresh_lem fresh ne = ground (arith, h.remembered d ne, eq_iff d "")

  -- the cache holds what the key produced
  prior_lem :
      {prior : List Event}
      → prior_events d s ≡ some prior
      → (d ≢ "") × (prior ≡ produced_under d s.events)
  unfolding prior_events
  prior_lem e = (ground (arith, eq_iff d ""), ground (arith, h.remembered d, eq_iff d ""))

  committed :
      (batch : List AppendEvent)
      → prior_events d s ≡ none
      → validate s.versions [] batch ≡ ok tt
      → Wrote d batch s.events (commit d batch s).1.events (commit d batch s).0
  committed batch fresh v = record {
    grown = events-commit d batch s;
    admitted = elim (validate_exact s batch h.counted) [ inl (_, a) ↦ a | inr (x, _) ↦ cc ];
    recorded = Recorded-commit d batch s;
    fresh = fresh_lem fresh;
  }

  pub writes_lem :
      (batch : List AppendEvent) {events : List Event}
      → (append d batch s).0 ≡ ok (events, false)
      → Wrote d batch s.events (append d batch s).1.events events
  writes_lem batch {events} e = elim (append-cases d batch s) [
    | inl (prior, _, q) ↦ absurd (ground arith)
    | inr (inl (x, _, _, q)) ↦ absurd (ground arith)
    | inr (inr (fresh, v, q)) ↦
        let p : (commit d batch s).0 ≡ events = ground arith in
        rw (q, ← p) (committed batch fresh v)
  ]

  pub replays_lem :
      (batch : List AppendEvent) {events : List Event}
      → (append d batch s).0 ≡ ok (events, true)
      → ((append d batch s).1 ≡ s) × (d ≢ "") × (events ≡ produced_under d s.events)
  replays_lem batch {events} e = elim (append-cases d batch s) [
    | inl (prior, k, q) ↦
        let p : events ≡ prior = ground arith in
        let facts = prior_lem k in (rw q, facts.0, p ∙ facts.1)
    | inr (inl (x, _, _, q)) ↦ absurd (ground arith)
    | inr (inr (_, _, q)) ↦ absurd (ground arith)
  ]

  pub finds_lem :
      {events : List Event}
      → lookup_dedupe d s ≡ ok (events, true)
      → (d ≢ "") × (events ≡ produced_under d s.events)
  unfolding lookup_dedupe
  finds_lem {events} e = elim (Option-cases (prior_events d s)) [
    | inl k ↦ absurd (ground arith)
    | inr (prior, k) ↦
        let p : events ≡ prior = ground arith in let facts = prior_lem k in (facts.0, p ∙ facts.1)
  ]

pub refuses_lem :
    (d : String) (batch : List AppendEvent) (s : MemoryStore) {x : Error}
    → (append d batch s).0 ≡ err x
    → (append d batch s).1 ≡ s
unfolding append
refuses_lem d batch s e = ground arith

pub loads_lem :
    (k : StreamKey) (s : MemoryStore) {events : List Event}
    → load_stream k.aggregate_type k.aggregate_id s ≡ ok events
    → events ≡ stream k s.events
unfolding load_stream
loads_lem k s e = ground arith

pub sequenced_lem :
    (s : MemoryStore)
    → IsValid s
    → length s.events < 2 ^ 63
    → Ascending (λ e. e.global_seq) (pos 0) s.events
sequenced_lem s h small =
    Numbered-Ascending (λ e. e.global_seq) 0 (pos 0) s.events (omega arith) refl h.counted.sequenced

-- `var _ eventstore.Store = (*Store)(nil)`, with the promises of the interface's comments.
abbrev pub memory_lawful : Lawful memory_store
memory_lawful = record {
  IsValid = IsValid;
  log = λ s. s.events;
  sequenced = sequenced_lem;
  versioned = λ s h. h.counted.versioned;
  keeps_valid = append-IsValid;
  loads = λ k s h e. loads_lem k s e;
  finds = λ d s h e. finds_lem d s h e;
  writes = λ d batch s h e. writes_lem d s h batch e;
  replays = λ d batch s h e. replays_lem d s h batch e;
  refuses = refuses_lem;
}
