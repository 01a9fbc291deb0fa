-- ===== src/EventStore/Contract.antt =====
-- The contract of `eventstore.Store` (internal/eventstore/eventstore.go, its comments), which the
-- command handlers rely on and which a store fulfils by its theorems.
use streamledger.Prelude.{
  ℕ, suc, ◌≡◌, ◌≢◌, ◌⊎◌, true, false, List, [], ◌∷◌, ◌++◌, String, if◌then◌else◌, length, ◌==◌, ◌^◌,
  ◌<◌, pos,
}
use streamledger.Int64.{int64}
use streamledger.Outcome.{Error, ok, err}
use streamledger.EventStore.{
  AppendEvent, Event, Store, StreamKey, stream_key_eq, key_of, target, no_version_check, stream,
  produced_under,
}
use streamledger.EventStore.Numbering.{Numbered, Ascending}

-- The number of events in each stream.
abbrev pub Lengths : Type 0
Lengths = StreamKey → ℕ

abbrev pub lengths : List Event → Lengths
lengths events k = length (stream k events)

abbrev pub grow : StreamKey → Lengths → Lengths
grow k len j = if k == j then suc (len j) else len j

-- The expected version of an event fits the stream as it is when the event's turn comes.
abbrev pub Expects : Lengths → AppendEvent → Type 0
Expects len e =
    (e.expected_version ≡ no_version_check) ⊎ (e.expected_version ≡ int64 (len (target e)))

abbrev pub Admissible : Lengths → List AppendEvent → Type 0
Admissible len [] = Unit
Admissible len (e ∷ batch) = Expects len e × Admissible (grow (target e) len) batch

-- The stored event is the one that was to be appended.
pub record Records (dedupe_key : String) (a : AppendEvent) (e : Event) : Type 0 where
  pub stored_under : key_of e ≡ target a
  pub stored_type : e.event_type ≡ a.event_type
  pub stored_payload : e.payload ≡ a.payload
  pub stored_key : e.metadata.dedupe_key ≡ dedupe_key

abbrev pub Recorded : String → List AppendEvent → List Event → Type 0
Recorded d [] [] = Unit
Recorded d (a ∷ batch) (e ∷ events) = Records d a e × Recorded d batch events
Recorded d _ _ = ⊥

-- What `Append` promises when it reports that it wrote the events.
pub record Wrote (d : String) (batch : List AppendEvent) (before after : List Event)
    (produced : List Event) : Type 0 where
  pub grown : after ≡ before ++ produced
  pub admitted : Admissible (lengths before) batch
  pub recorded : Recorded d batch produced
  pub fresh : d ≢ "" → produced_under d before ≡ []

pub record Lawful {S : Type 0} (ops : Store S) : Type 1 where
  pub IsValid : S → Type 0
  -- the events of the store, in global order
  pub log : S → List Event
  -- a log that no counter has outrun is in strict order of its global sequence numbers
  pub sequenced :
      (s : S) → IsValid s → length (log s) < 2 ^ 63 → Ascending (λ e. e.global_seq) (pos 0) (log s)
  pub versioned :
      (s : S) → IsValid s → (k : StreamKey) → Numbered (λ e. e.version) 0 (stream k (log s))
  pub keeps_valid :
      (d : String) (batch : List AppendEvent) (s : S) → IsValid s → IsValid (ops.append d batch s).1
  pub loads :
      (k : StreamKey) (s : S) {events : List Event}
      → IsValid s
      → ops.load_stream k.aggregate_type k.aggregate_id s ≡ ok events
      → events ≡ stream k (log s)
  pub finds :
      (d : String) (s : S) {events : List Event}
      → IsValid s
      → ops.lookup_dedupe d s ≡ ok (events, true)
      → (d ≢ "") × (events ≡ produced_under d (log s))
  pub writes :
      (d : String) (batch : List AppendEvent) (s : S) {events : List Event}
      → IsValid s
      → (ops.append d batch s).0 ≡ ok (events, false)
      → Wrote d batch (log s) (log (ops.append d batch s).1) events
  -- a duplicate changes nothing, and brings back what the key produced
  pub replays :
      (d : String) (batch : List AppendEvent) (s : S) {events : List Event}
      → IsValid s
      → (ops.append d batch s).0 ≡ ok (events, true)
      → ((ops.append d batch s).1 ≡ s) × (d ≢ "") × (events ≡ produced_under d (log s))
  -- an error changes nothing
  pub refuses :
      (d : String) (batch : List AppendEvent) (s : S) {x : Error}
      → (ops.append d batch s).0 ≡ err x
      → (ops.append d batch s).1 ≡ s
