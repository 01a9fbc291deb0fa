-- ===== src/Tests/Relaying.antt =====
-- Two events through a JetStream, and a projector that they reach in the wrong order.
use streamledger.Prelude.{◌≡◌, refl, false, List, [], ◌∷◌, ◌++◌, ℤ, pos, arith}
use streamledger.Int64.{add64}
use streamledger.Outcome.{ok, err}
use streamledger.Action.{Action}
use streamledger.Json.{Payload}
use streamledger.Bus.{Handler, hand_out, hand_out_all}
use streamledger.Bus.Nats.{
  Texts, Options, NatsMsg, WireEvent, to_wire, to_event, marshal_wire, unmarshal_wire,
  with_defaults, message_of, publish,
}
use streamledger.Bus.Nats.Wire.{ReadsBack, wire_round_trip}
use streamledger.Bus.Nats.Relay.{Jetstream, consume, publish_relays}
use streamledger.Projections.Memory.{
  new, read_models, get_account, upsert_account, get_checkpoint, set_checkpoint, with_tx,
}
use streamledger.Projections.Appliers.{account_relevant, account_change, account_apply}
use streamledger.Projections.Projector.{account_applier, apply_event, apply_body, apply_relevant}
use streamledger.Projections.Redelivery.{projector}
use streamledger.Projections.Mirror.{account_apply-KeepsCheckpoints}
use streamledger.Projections.Overtaken.{overtaken_ignored}
use streamledger.Tests.World.{running}
use streamledger.Tests.ReadSide.{opened_a, opened_b}

-- Texts for the payload and the time of one event.
abbrev texts : Texts
texts = record {
  bytes_text = λ p. "e30=";
  text_bytes = λ s. ok opened_a.payload;
  time_text = λ t. ok "2026-01-01T00:00:00Z";
  text_time = λ s. ok opened_a.created_at;
}

opened_a-ReadsBack : ReadsBack texts opened_a
opened_a-ReadsBack = record { bytes_back = refl; time_back = λ s q. refl }

abbrev send : NatsMsg → Action (List NatsMsg) (Unit {0})
send msg s = (ok tt, s ++ msg ∷ [])

abbrev stream_of_list : Jetstream send
stream_of_list = record { messages = λ s. s; stores = λ msg s h k. refl }

abbrev opts : Options
opts = with_defaults (record { stream_name = ""; durable_consumer_name = "" })

abbrev doc : Payload
doc = elim (marshal_wire texts (to_wire opened_a)) [ ok d ↦ d | err e ↦ opened_a.payload ]

wire_round_trip_example :
    (w : WireEvent) × (unmarshal_wire texts doc ≡ ok w) × (to_event w ≡ opened_a)
unfolding marshal_wire
wire_round_trip_example =
    wire_round_trip texts opened_a doc opened_a-ReadsBack (omega arith, omega arith)
      (omega arith, omega arith) refl

-- A handler that counts.
abbrev counting : Handler ℤ
counting msg n = (ok tt, add64 n (pos 1))

publish_relays_example :
    (added : List NatsMsg) × ((publish texts send opts (opened_a ∷ []) []).1 ≡ [] ++ added)
    × (consume texts counting added (pos 0)
        ≡ (hand_out_all (counting ∷ []) (opened_a ∷ []) (pos 0)).1)
unfolding publish message_of marshal_wire hand_out_all hand_out
publish_relays_example =
    publish_relays texts send stream_of_list opts counting (opened_a ∷ []) (pos 0) [] (pos 0)
      (((omega arith, omega arith), (omega arith, omega arith), opened_a-ReadsBack), tt)
      (omega arith, tt) tt refl refl

overtaken_ignored_example :
    apply_event
      (projector "balances" (account_applier read_models))
      opened_a
      (apply_event (projector "balances" (account_applier read_models)) opened_b new).1
    ≡ (ok false, (apply_event (projector "balances" (account_applier read_models)) opened_b new).1)
unfolding running apply_event apply_body apply_relevant with_tx get_checkpoint set_checkpoint
    get_account upsert_account account_relevant account_change account_apply
overtaken_ignored_example =
    overtaken_ignored "balances" (account_applier read_models)
      (account_apply-KeepsCheckpoints "balances") opened_b opened_a new (omega arith) refl
      (omega arith)
