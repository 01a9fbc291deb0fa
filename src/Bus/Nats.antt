-- ===== src/Bus/Nats.antt =====
-- internal/bus/natsbus/bus.go: the bus on a NATS JetStream server. The server (`Jetstream`) is a
-- parameter, and so are the texts that encoding/json gives bytes and times (`Texts`).
pub mod Wire
pub mod Relay
use Prim.Native.String.{◌++◌ as str_append}
use streamledger.Prelude.{List, [], ◌∷◌, ◌++◌, String, ℤ, pos, ◌==◌, string_eq, if◌then◌else◌}
use streamledger.Outcome.{Outcome, ok, err, bad_json, external, wrap_error, ◌>>=◌}
use streamledger.Action.{Action}
use streamledger.Json.{
  JsonValue, null, other, str, int, Payload, malformed, object, fields_of, decode_int, decode_str,
  omit_empty,
}
use streamledger.EventStore.{Time, Event}
use streamledger.Projections.{zero_time}
use streamledger.Bus.{Handler}

pub record WireEvent : Type 0 where
  pub global_seq : ℤ
  pub aggregate_type : String
  pub aggregate_id : String
  pub version : ℤ
  pub event_type : String
  pub payload : Payload
  pub dedupe_key : String
  pub correlation_id : String
  pub created_at : Time

unfoldable pub to_wire : Event → WireEvent
to_wire e = record {
  global_seq = e.global_seq;
  aggregate_type = e.aggregate_type;
  aggregate_id = e.aggregate_id;
  version = e.version;
  event_type = e.event_type;
  payload = e.payload;
  dedupe_key = e.metadata.dedupe_key;
  correlation_id = e.metadata.correlation_id;
  created_at = e.created_at;
}

unfoldable pub to_event : WireEvent → Event
to_event w = record {
  global_seq = w.global_seq;
  aggregate_type = w.aggregate_type;
  aggregate_id = w.aggregate_id;
  version = w.version;
  event_type = w.event_type;
  payload = w.payload;
  metadata = record { dedupe_key = w.dedupe_key; correlation_id = w.correlation_id };
  created_at = w.created_at;
}

-- The texts of []byte (base64) and of time.Time (RFC 3339, up to year 9999) in a JSON document.
pub record Texts : Type 0 where
  pub bytes_text : Payload → String
  pub text_bytes : String → Outcome Payload
  pub time_text : Time → Outcome String
  pub text_time : String → Outcome Time

-- A value decoded from a text, where `null` leaves the old one.
abbrev pub text_value {ℓ} : {A : Type ℓ} → (String → Outcome A) → JsonValue → A → Outcome A
text_value parse (str s) old = parse s
text_value parse null old = ok old
text_value parse _ old = err bad_json

abbrev pub decode_text {ℓ} :
    {A : Type ℓ} → (String → Outcome A) → String → List (String × JsonValue) → A → Outcome A
decode_text parse name [] old = ok old
decode_text parse name ((key, v) ∷ fields) old =
    (if key == name then text_value parse v old else ok old) >>= decode_text parse name fields

-- A nil slice of bytes.
abbrev pub no_bytes : Payload
no_bytes = malformed

module _ (texts : Texts) where
  -- json.Marshal of a wireEvent, by its field tags
  unfoldable pub marshal_wire : WireEvent → Outcome Payload
  marshal_wire w = texts.time_text w.created_at >>= λ created_at. ok (
      object (
        ("global_seq", int w.global_seq)
          ∷ ("aggregate_type", str w.aggregate_type)
          ∷ ("aggregate_id", str w.aggregate_id)
          ∷ ("version", int w.version)
          ∷ ("event_type", str w.event_type)
          ∷ ("payload", str (texts.bytes_text w.payload))
          ∷ omit_empty "dedupe_key" w.dedupe_key
        ++ omit_empty "correlation_id" w.correlation_id
        ++ ("created_at", str created_at) ∷ []))

  -- json.Unmarshal into a wireEvent
  unfoldable pub unmarshal_wire : Payload → Outcome WireEvent
  unmarshal_wire data_ = do
    fields ← fields_of data_
    global_seq ← decode_int "global_seq" fields (pos 0)
    aggregate_type ← decode_str "aggregate_type" fields ""
    aggregate_id ← decode_str "aggregate_id" fields ""
    version ← decode_int "version" fields (pos 0)
    event_type ← decode_str "event_type" fields ""
    payload ← decode_text texts.text_bytes "payload" fields no_bytes
    dedupe_key ← decode_str "dedupe_key" fields ""
    correlation_id ← decode_str "correlation_id" fields ""
    created_at ← decode_text texts.text_time "created_at" fields zero_time
    ok (record {
      global_seq = global_seq;
      aggregate_type = aggregate_type;
      aggregate_id = aggregate_id;
      version = version;
      event_type = event_type;
      payload = payload;
      dedupe_key = dedupe_key;
      correlation_id = correlation_id;
      created_at = created_at;
    })

pub record Options : Type 0 where
  pub stream_name : String
  pub durable_consumer_name : String

unfoldable pub with_defaults : Options → Options
with_defaults o = record {
  stream_name = if o.stream_name == "" then "streamledger_events" else o.stream_name;
  durable_consumer_name =
      if o.durable_consumer_name == "" then "streamledger_projections" else o.durable_consumer_name;
}

-- nats.Msg; `msg_id` is the number whose decimal text the header Nats-Msg-Id carries.
pub record NatsMsg : Type 0 where
  pub subject : String
  pub data_ : Payload
  pub msg_id : ℤ

pub data Reply : Type 0 where
  -- msg.Ack, msg.Nak
  ack nak : Reply

abbrev pub replied : Outcome (Unit {0}) → Reply
replied (ok _) = ack
replied (err _) = nak

module _ {S : Type 0} (texts : Texts) where
  -- `js.PublishMsg` is the parameter `send`.
  module _ (send : NatsMsg → Action S (Unit {0})) (opts : Options) where
    -- The message of one turn of the loop of `Publish`.
    unfoldable pub message_of : Event → Outcome NatsMsg
    message_of e =
        wrap_error (external "natsbus: marshal event") (marshal_wire texts (to_wire e)) >>= λ data_.
        ok (record {
          subject = str_append opts.stream_name (str_append "." e.aggregate_type);
          data_ = data_;
          msg_id = e.global_seq;
        })

    abbrev pub sent : Outcome NatsMsg → Action S (Unit {0})
    sent (err e) s = (err e, s)
    sent (ok msg) s = let (r, s') = send msg s in (wrap_error (external "natsbus: publish") r, s')

    unfoldable pub publish : List Event → Action S (Unit {0})
    publish [] s = (ok tt, s)
    publish (e ∷ events) s =
        let (r, s') = sent (message_of e) s in
        let rest = publish events s' in elim r [ err x ↦ (err x, s') | ok _ ↦ rest ]

  abbrev pub handled : Handler S → Outcome WireEvent → S → Reply × S
  handled handler (err e) s = (ack, s)
  handled handler (ok w) s =
      let (r, s') = handler (record { event = to_event w }) s in (replied r, s')

  -- The function that `Subscribe` gives to `consumer.Consume`.
  unfoldable pub receive : Handler S → NatsMsg → S → Reply × S
  receive handler msg s = handled handler (unmarshal_wire texts msg.data_) s
