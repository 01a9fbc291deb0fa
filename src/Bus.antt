-- ===== src/Bus.antt =====
-- internal/bus: handing appended events on, after they are in the log.
-- A handler acts on whatever state the subscribers keep; the source's message is the event alone.
pub mod Duplicates
pub mod Nats
use streamledger.Prelude.{
  ℕ, zero, suc, Bool, true, false, Option, none, some, List, [], ◌∷◌, String, if◌then◌else◌, map, ℤ,
  pos, pos_part, eqb,
}
use streamledger.Int64.{add64}
use streamledger.Outcome.{Outcome, ok, err}
use streamledger.EventStore.{Event}
use streamledger.Action.{Action, ◌>>=◌, lift}

-- bus.Message
pub record Message : Type 0 where
  pub event : Event

-- bus.Handler
abbrev pub Handler : Type 0 → Type 0
Handler S = Message → Action S (Unit {0})

-- bus.Publisher
abbrev pub Publisher : Type 0 → Type 0
Publisher S = List Event → Action S (Unit {0})

module _ {S : Type 0} where
  -- the inner loop of `Bus.Publish`: one message to every handler, up to the first error
  unfoldable pub hand_out : Message → List (Handler S) → Action S (Unit {0})
  hand_out msg [] s = (ok tt, s)
  hand_out msg (h ∷ handlers) s = (h msg >>= λ _. hand_out msg handlers) s

  -- the outer loop
  unfoldable pub hand_out_all : List (Handler S) → List Event → Action S (Unit {0})
  hand_out_all handlers [] s = (ok tt, s)
  hand_out_all handlers (e ∷ events) s =
      (hand_out (record { event = e }) handlers >>= λ _. hand_out_all handlers events) s

  -- `DuplicatingPublisher.Publish`: the loop, and the method
  unfoldable pub republish : Publisher S → ℕ → List Event → Action S (Unit {0})
  republish inner zero events s = (ok tt, s)
  republish inner (suc n) events s = (inner events >>= λ _. republish inner n events) s

  unfoldable pub duplicating_publish : Publisher S → ℤ → List Event → Action S (Unit {0})
  duplicating_publish inner extra_deliveries events s =
      (inner events >>= λ _. republish inner (pos_part extra_deliveries) events) s

-- internal/bus/inmemory/bus.go. The handlers stand here in the order of their numbers; Go's map has
-- no order, so `publish_in` takes the order in which it finds them. Numbers do not run out: an int
-- counts 2^63 subscriptions.
pub record MemoryBus (S : Type 0) : Type 0 where
  pub handlers : List (ℕ × Handler S)
  pub next_id : ℕ
  pub closed : Bool

module _ {S : Type 0} where
  abbrev pub new_bus : MemoryBus S
  new_bus = record { handlers = []; next_id = 0; closed = false }

  unfoldable pub subscribe : Handler S → MemoryBus S → ℕ × MemoryBus S
  subscribe handler b = (
    b.next_id,
    record b { next_id = suc b.next_id; handlers = (b.next_id, handler) ∷ b.handlers },
  )

  unfoldable pub without : ℕ → List (ℕ × Handler S) → List (ℕ × Handler S)
  without id [] = []
  without id ((n, h) ∷ handlers) =
      let rest = without id handlers in if eqb n id then rest else (n, h) ∷ rest

  unfoldable pub unsubscribe : ℕ → MemoryBus S → MemoryBus S
  unsubscribe id b = record b { handlers = without id b.handlers }

  unfoldable pub close : MemoryBus S → MemoryBus S
  close b = record b { closed = true; handlers = [] }

  unfoldable pub publish_in :
      (List (ℕ × Handler S) → List (ℕ × Handler S)) → MemoryBus S → Publisher S
  publish_in order b events s =
      if b.closed then (ok tt, s) else hand_out_all (map (λ (n, h). h) (order b.handlers)) events s
