-- ===== src/Bus/Nats/Relay.antt =====
-- A batch published on NATS and consumed there (internal/bus/natsbus/bus.go), against handing it to the handler
-- directly, as the in-memory bus does.
use streamledger.Prelude.{
  ◌≡◌, inl, inr, refl, sym, ap, ◌∙◌, List, [], ◌∷◌, ◌++◌, arith, ℤ, ◌≤ℤ◌, ◌<ℤ◌, All, ◌≢◌,
}
use streamledger.Int64.{IsInt64}
use streamledger.Outcome.{Outcome, ok, err, Outcome-cases}
use streamledger.Action.{Action}
use streamledger.EventStore.{Event}
use streamledger.EventStore.Numbering.{Ascending}
use streamledger.Bus.{Handler, hand_out, hand_out_all}
use streamledger.Bus.Nats.{
  Texts, Options, NatsMsg, WireEvent, to_wire, to_event, marshal_wire, unmarshal_wire, message_of,
  sent, publish, replied, receive,
}
use streamledger.Bus.Nats.Wire.{ReadsBack, wire_round_trip}

-- The messages of a stream, in order. The server drops a message when it has one with the same
-- identifier, for a while after that one came, and otherwise stores it last.
pub record Jetstream {S : Type 0} (send : NatsMsg → Action S (Unit {0})) : Type 0 where
  pub messages : S → List NatsMsg
  pub stores :
      (msg : NatsMsg) (s : S)
      → (send msg s).0 ≡ ok tt
      → All (λ (m : NatsMsg). m.msg_id ≢ msg.msg_id) (messages s)
      → messages (send msg s).1 ≡ messages s ++ msg ∷ []

-- Every message is delivered once, in order; the replies are left out.
abbrev pub consume : {S : Type 0} → Texts → Handler S → List NatsMsg → S → S
consume texts handler [] s = s
consume texts handler (msg ∷ messages) s =
    let (_, s') = receive texts handler msg s in consume texts handler messages s'

-- The message carries the event.
abbrev pub Carries : Texts → NatsMsg → Event → Type 0
Carries texts msg e = (w : WireEvent) × (unmarshal_wire texts msg.data_ ≡ ok w) × (to_event w ≡ e)

abbrev pub CarriesAll : Texts → List NatsMsg → List Event → Type 0
CarriesAll texts [] [] = Unit
CarriesAll texts (msg ∷ messages) (e ∷ events) =
    Carries texts msg e × CarriesAll texts messages events
CarriesAll texts _ _ = ⊥

receive_carried :
    {S : Type 0} (texts : Texts) (handler : Handler S) (msg : NatsMsg) (e : Event) (s : S)
    → Carries texts msg e
    → receive texts handler msg s
      ≡ (replied (handler (record { event = e }) s).0, (handler (record { event = e }) s).1)
unfolding receive
receive_carried texts handler msg e s (w, q, same) = rw (q, same) refl

-- A handler that fails on none of the events sees on NATS what it sees on the in-memory bus.
pub consume_carried :
    {S : Type 0} (texts : Texts) (handler : Handler S) (messages : List NatsMsg)
    (events : List Event) (s : S)
    → CarriesAll texts messages events
    → (hand_out_all (handler ∷ []) events s).0 ≡ ok tt
    → (hand_out_all (handler ∷ []) events s).1 ≡ consume texts handler messages s
unfolding hand_out_all hand_out
consume_carried texts handler [] [] s c h = refl
consume_carried texts handler (msg ∷ messages) (e ∷ events) s c h =
    let got = receive_carried texts handler msg e s c.0 in
    elim (Outcome-cases (handler (record { event = e }) s).0) [
      | inr (x, q) ↦ absurd (ground arith)
      | inl (u, q) ↦
          rw (q, got)
            (consume_carried texts handler messages events (handler (record { event = e }) s).1 c.1
              (rw q at h))
    ]
consume_carried texts handler [] (e ∷ events) s c h = absurd c
consume_carried texts handler (msg ∷ messages) [] s c h = absurd c

-- The event's numbers are int64 numbers, and its texts are read back.
abbrev pub IsSendable : Texts → Event → Type 0
IsSendable texts e = IsInt64 e.global_seq × IsInt64 e.version × ReadsBack texts e

append-snoc :
    (xs : List NatsMsg) (m : NatsMsg) (zs : List NatsMsg) → (xs ++ m ∷ []) ++ zs ≡ xs ++ m ∷ zs
append-snoc [] m zs = refl
append-snoc (x ∷ xs) m zs = ap (λ l. x ∷ l) (append-snoc xs m zs)

append-[] : (xs : List NatsMsg) → xs ≡ xs ++ []
append-[] [] = refl
append-[] (x ∷ xs) = ap (λ l. x ∷ l) (append-[] xs)

-- The identifiers of the stored messages reach up to `last`.
abbrev pub UpTo : ℤ → List NatsMsg → Type 0
UpTo last = All (λ m. m.msg_id ≤ℤ last)

UpTo-fresh :
    (last n : ℤ) (messages : List NatsMsg)
    → last <ℤ n
    → UpTo last messages
    → All (λ (m : NatsMsg). m.msg_id ≢ n) messages
UpTo-fresh last n [] lt h = tt
UpTo-fresh last n (m ∷ messages) lt h =
    let le = h.0 in
    (
      (λ q. (let le' : n ≤ℤ last = rw q at le in omega (arith, le', lt))),
      UpTo-fresh last n messages lt h.1,
    )

UpTo-snoc :
    (last n : ℤ) (messages : List NatsMsg) (msg : NatsMsg)
    → last <ℤ n
    → msg.msg_id ≡ n
    → UpTo last messages
    → UpTo n (messages ++ msg ∷ [])
UpTo-snoc last n [] msg lt q h = (rw q (omega arith), tt)
UpTo-snoc last n (m ∷ messages) msg lt q h =
    (omega (arith, h.0, lt), UpTo-snoc last n messages msg lt q h.1)

module _ {S : Type 0} (texts : Texts) (send : NatsMsg → Action S (Unit {0})) (js : Jetstream send)
    (opts : Options) where
  -- What a batch has added to the stream.
  pub record Published (events : List Event) (before after : S) : Type 0 where
    pub added : List NatsMsg
    pub grown : js.messages after ≡ js.messages before ++ added
    pub carried : CarriesAll texts added events

  message_of_ok :
      (e : Event) {msg : NatsMsg}
      → IsSendable texts e
      → message_of texts send opts e ≡ ok msg
      → (msg.msg_id ≡ e.global_seq) × Carries texts msg e
  unfolding message_of
  message_of_ok e {msg} r h = elim (Outcome-cases (marshal_wire texts (to_wire e))) [
    | inr (x, q) ↦ absurd (ground arith)
    | inl (doc, q) ↦
        let id : msg.msg_id ≡ e.global_seq = ground arith in
        let data_ : msg.data_ ≡ doc = ground arith in
        (id, rw data_ (wire_round_trip texts e doc r.2 r.0 r.1 q))
  ]

  -- The step of the loop.
  sent_ok :
      (m : Outcome NatsMsg) (s : S)
      → (sent texts send opts m s).0 ≡ ok tt
      → (msg : NatsMsg) × (m ≡ ok msg)
        × ((send msg s).0 ≡ ok tt)
        × ((sent texts send opts m s).1 ≡ (send msg s).1)
  sent_ok (err x) s h = absurd (ground arith)
  sent_ok (ok msg) s h = elim (Outcome-cases (send msg s).0) [
    | inl (u, q) ↦ (msg, refl, q, refl)
    | inr (x, q) ↦ absurd (ground arith)
  ]

  pub publish_ok :
      (events : List Event) (last : ℤ) (s : S)
      → All (IsSendable texts) events
      → Ascending (λ e. e.global_seq) last events
      → UpTo last (js.messages s)
      → (publish texts send opts events s).0 ≡ ok tt
      → Published events s (publish texts send opts events s).1
  unfolding publish
  publish_ok [] last s r rise up h = record { added = []; grown = append-[] _; carried = tt }
  publish_ok (e ∷ events) last s r rise up h =
      elim (Outcome-cases (sent texts send opts (message_of texts send opts e) s).0) [
        | inr (x, q) ↦ absurd (ground arith)
        | inl (u, q) ↦
            let (msg, m, went, left) = sent_ok (message_of texts send opts e) s q in
            let s' = (sent texts send opts (message_of texts send opts e) s).1 in
            let (id, carries) = message_of_ok e r.0 m in
            let fresh = UpTo-fresh last e.global_seq (js.messages s) rise.0 up in
            let stored : js.messages s' ≡ js.messages s ++ msg ∷ [] =
              ap js.messages left ∙ js.stores msg s went (rw id fresh) in
            let up' : UpTo e.global_seq (js.messages s') =
              rw stored (UpTo-snoc last e.global_seq (js.messages s) msg rise.0 id up) in
            let more = publish_ok events e.global_seq s' r.1 rise.1 up' (ground arith) in
            rw (publish, q)
              (record {
                added = msg ∷ more.added;
                grown =
                    more.grown
                    ∙ ap (λ l. l ++ more.added) stored
                    ∙ append-snoc (js.messages s) msg more.added;
                carried = (carries, more.carried);
              })
      ]

  -- On a JetStream that stores what it accepts, a batch in the order of its numbers, which are
  -- larger than those of the messages stored so far, whose events' numbers fit in an int64 and whose bytes and times are read back from their texts, is added to the stream when
  -- `Publish` reports no error; and a handler that fails on none of these events, and to which the
  -- new messages are delivered once and in order, does what it does on the in-memory bus.
  pub publish_relays :
      {R : Type 0} (handler : Handler R) (events : List Event) (last : ℤ) (s : S) (r : R)
      → All (IsSendable texts) events
      → Ascending (λ e. e.global_seq) last events
      → UpTo last (js.messages s)
      → (publish texts send opts events s).0 ≡ ok tt
      → (hand_out_all (handler ∷ []) events r).0 ≡ ok tt
      → (added : List NatsMsg) × (js.messages (publish texts send opts events s).1
          ≡ js.messages s ++ added)
        × (consume texts handler added r ≡ (hand_out_all (handler ∷ []) events r).1)
  publish_relays handler events last s r ranged rise up h fine =
      let done = publish_ok events last s ranged rise up h in
      (
        done.added,
        done.grown,
        sym (consume_carried texts handler done.added events r done.carried fine),
      )
