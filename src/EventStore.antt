-- ===== src/EventStore.antt =====
-- internal/eventstore/eventstore.go: the event log's data, and the contract of a store.
pub mod Numbering
pub mod Streams
pub mod Contract
pub mod Memory
pub mod Postgres
use streamledger.Prelude.{
  ℕ, ◌≡◌, ◌↔◌, refl, Bool, true, ◌&&◌, List, String, arith, select, ℤ, pos, negsuc, Eq, ◌==◌,
  string_eq, eq_iff,
}
use streamledger.Outcome.{Outcome}
use streamledger.Json.{Payload}

-- time.Time: seconds and nanoseconds since the Unix epoch.
pub record Time : Type 0 where
  pub sec : ℤ
  pub nsec : ℕ

-- `NoVersionCheck` and `StreamDoesNotExist`
abbrev pub no_version_check : ℤ
no_version_check = negsuc 0

abbrev pub stream_does_not_exist : ℤ
stream_does_not_exist = pos 0

pub record Metadata : Type 0 where
  pub dedupe_key : String
  pub correlation_id : String

pub record AppendEvent : Type 0 where
  pub aggregate_type : String
  pub aggregate_id : String
  pub event_type : String
  pub payload : Payload
  pub expected_version : ℤ

pub record Event : Type 0 where
  pub global_seq : ℤ
  pub aggregate_type : String
  pub aggregate_id : String
  pub version : ℤ
  pub event_type : String
  pub payload : Payload
  pub metadata : Metadata
  pub created_at : Time

-- The contract: reads leave the store alone, and `append` returns the store that it leaves.
pub record Store (S : Type 0) : Type 0 where
  pub append : String → List AppendEvent → S → Outcome (List Event × Bool) × S
  pub load_stream : String → String → S → Outcome (List Event)
  pub load_since : ℤ → ℤ → S → Outcome (List Event)
  pub latest_global_seq : S → Outcome ℤ
  pub lookup_dedupe : String → S → Outcome (List Event × Bool)

-- `streamKey` of memory/store.go: an aggregate type and an aggregate id.
pub record StreamKey : Type 0 where
  pub aggregate_type : String
  pub aggregate_id : String

abbrev stream_key_beq : StreamKey → StreamKey → Bool
stream_key_beq a b = a.aggregate_type == b.aggregate_type && a.aggregate_id == b.aggregate_id

pub stream_key_beq_iff : (a b : StreamKey) → (stream_key_beq a b ≡ true) ↔ (a ≡ b)
stream_key_beq_iff a b =
    ground (arith, eq_iff a.aggregate_type b.aggregate_type, eq_iff a.aggregate_id b.aggregate_id)

instance abbrev pub stream_key_eq : Eq StreamKey
stream_key_eq = record { beq = stream_key_beq; beq_iff = stream_key_beq_iff }

abbrev pub key_of : Event → StreamKey
key_of e = record { aggregate_type = e.aggregate_type; aggregate_id = e.aggregate_id }

-- The stream that an event to append is meant for.
abbrev pub target : AppendEvent → StreamKey
target e = record { aggregate_type = e.aggregate_type; aggregate_id = e.aggregate_id }

-- The events of one aggregate, in log order.
abbrev pub stream : StreamKey → List Event → List Event
stream k = select (λ e. key_of e == k)

-- The events that a command with this idempotency key produced.
abbrev pub produced_under : String → List Event → List Event
produced_under d = select (λ e. e.metadata.dedupe_key == d)
