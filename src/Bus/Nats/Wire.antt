-- ===== src/Bus/Nats/Wire.antt =====
-- The wire format of internal/bus/natsbus/bus.go, written and read back.
use streamledger.Prelude.{◌≡◌, refl, [], ◌∷◌, ◌++◌, String, arith, eq_iff, string_eq, inl, inr}
use streamledger.Int64.{IsInt64}
use streamledger.Outcome.{ok, Outcome-cases}
use streamledger.Json.{Payload, object, int, str, omit_empty, is_int64_of_IsInt64}
use streamledger.EventStore.{Event}
use streamledger.Bus.Nats.{Texts, WireEvent, to_wire, to_event, marshal_wire, unmarshal_wire}

-- What encoding/json documents of the texts of an event's bytes and of its time: they are read back.
pub record ReadsBack (texts : Texts) (e : Event) : Type 0 where
  pub bytes_back : texts.text_bytes (texts.bytes_text e.payload) ≡ ok e.payload
  pub time_back :
      (s : String) → texts.time_text e.created_at ≡ ok s → texts.text_time s ≡ ok e.created_at

module _ (texts : Texts) (w : WireEvent) (back : ReadsBack texts (to_event w))
    (g : IsInt64 w.global_seq) (v : IsInt64 w.version) where
  abbrev document : String → Payload
  document created_at = object (
      ("global_seq", int w.global_seq)
        ∷ ("aggregate_type", str w.aggregate_type)
        ∷ ("aggregate_id", str w.aggregate_id)
        ∷ ("version", int w.version)
        ∷ ("event_type", str w.event_type)
        ∷ ("payload", str (texts.bytes_text w.payload))
        ∷ omit_empty "dedupe_key" w.dedupe_key
      ++ omit_empty "correlation_id" w.correlation_id
      ++ ("created_at", str created_at) ∷ [])

  document_read :
      (s : String) → texts.time_text w.created_at ≡ ok s → unmarshal_wire texts (document s) ≡ ok w
  unfolding unmarshal_wire to_event
  document_read s q = ground (
    arith,
    is_int64_of_IsInt64 w.global_seq g,
    is_int64_of_IsInt64 w.version v,
    back.bytes_back,
    back.time_back s q,
    eq_iff w.dedupe_key "",
    eq_iff w.correlation_id "",
  )

-- For an event whose bytes and time are read back from their texts, and whose numbers are int64 numbers, the document that
-- the event is published as, when it can be written, is read back as that event.
pub wire_round_trip :
    (texts : Texts) (e : Event) (doc : Payload)
    → ReadsBack texts e
    → IsInt64 e.global_seq
    → IsInt64 e.version
    → marshal_wire texts (to_wire e) ≡ ok doc
    → (w : WireEvent) × (unmarshal_wire texts doc ≡ ok w) × (to_event w ≡ e)
unfolding marshal_wire unmarshal_wire to_wire to_event
wire_round_trip texts e doc back g v h = elim (Outcome-cases (texts.time_text e.created_at)) [
  | inr (x, q) ↦ absurd (ground arith)
  | inl (s, q) ↦
      let same : document texts (to_wire e) back g v s ≡ doc = ground arith in
      (to_wire e, rw (← same) (document_read texts (to_wire e) back g v s q), refl)
]
