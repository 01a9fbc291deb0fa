-- ===== src/Ledger/Service/Commit.antt =====
-- How a command on one stream (internal/ledger/service.go) ends, whatever the other clients do
-- between its calls.
use streamledger.Prelude.{
  ℕ, zero, suc, ◌^◌, ◌<◌, ◌≡◌, ◌≢◌, ◌⊎◌, inl, inr, refl, ap, ◌∙◌, Bool, true, false, List, [], ◌∷◌,
  ◌++◌, String, arith, length, length-append, length-select-le, select-append, ◌==◌,
}
use streamledger.Int64.{int64}
use streamledger.Outcome.{Outcome, ok, Outcome-cases}
use streamledger.EventStore.{
  AppendEvent, Event, Store, StreamKey, stream_key_eq, key_of, no_version_check, stream,
  produced_under,
}
use streamledger.EventStore.Numbering.{Numbered, Numbered-last}
use streamledger.EventStore.Streams.{stream-snoc_self}
use streamledger.EventStore.Contract.{Lawful, Records, Recorded}
use streamledger.Ledger.Command.{World, Others, arrive}
use streamledger.Ledger.Interleaving.{Respects, Waits, here, next, Waits-trans, Waits-Continues}
use streamledger.Ledger.Service.{
  Result, Service, VersionPlan, Proposal, expected_version_for, retry,
}
use streamledger.Ledger.Service.Settle.{
  Silent, settled_result, settled_store, appended, settled, settled_cases,
}
use streamledger.Ledger.Service.Attempt.{
  still_as_read, batch_of, loaded, found, retry-load_err, retry-propose_err, retry-append,
}

-- The proposal's version is that of the stream it was computed from.
abbrev pub Sees : (List Event → Outcome Proposal) → Type 0
Sees propose =
    (events : List Event) (p : Proposal)
    → Numbered (λ e. e.version) 0 events
    → propose events ≡ ok p
    → p.version ≡ int64 (length events)

module _ {S : Type 0} {ops : Store S} (laws : Lawful ops) (others : Others S) (k : StreamKey)
    (d : String) (propose : List Event → Outcome Proposal) where
  -- The command appended one event to the store that it found when its append ran, and the
  -- proposal is what the rules decide from the stream in that store.
  pub record Committed (w : World S) (x : Outcome Result × World S) : Type 0 where
    pub at : World S
    pub waited : Waits others w at
    pub valid : laws.IsValid at.store
    pub proposal : Proposal
    pub decided : propose (stream k (laws.log at.store)) ≡ ok proposal
    pub event : Event
    pub grown : laws.log x.1.store ≡ laws.log at.store ++ event ∷ []
    pub stored_under : key_of event ≡ k
    pub stored_type : event.event_type ≡ proposal.event_type
    pub stored_payload : event.payload ≡ proposal.payload
    pub stored_key : event.metadata.dedupe_key ≡ d
    -- the key had produced nothing
    pub first_use : d ≢ "" → produced_under d (laws.log at.store) ≡ []
    pub numbered : event.version ≡ int64 (suc (length (stream k (laws.log at.store))))
    pub reported :
        x.0 ≡ ok (record { applied = true; duplicate = false; new_version = event.version })

  abbrev pub Ends : World S → Outcome Result × World S → Type 0
  Ends w x = Silent others w x ⊎ Committed w x

pub Recorded-one :
    (d : String) (a : AppendEvent) (produced : List Event)
    → Recorded d (a ∷ []) produced
    → (e : Event) × (produced ≡ e ∷ []) × Records d a e
Recorded-one d a [] h = absurd h
Recorded-one d a (e ∷ []) h = (e, refl, h.0)
Recorded-one d a (e ∷ f ∷ produced) h = absurd h.1

-- The version of an event that was just added to its stream.
pub numbered_last :
    {S : Type 0} {ops : Store S} (laws : Lawful ops) (k : StreamKey) (s : S) (before : List Event)
    (e : Event)
    → laws.IsValid s
    → laws.log s ≡ before ++ e ∷ []
    → key_of e ≡ k
    → e.version ≡ int64 (suc (length (stream k before)))
numbered_last laws k s before e h grown key =
    let at_k : stream k (laws.log s) ≡ stream k before ++ e ∷ [] =
      rw grown (stream-snoc_self k before e key) in
    Numbered-last (λ x. x.version) 0 _ (stream k before) e (omega arith)
      (rw at_k at (laws.versioned s h k))

module _ {S : Type 0} {ops : Store S} (laws : Lawful ops) {others : Others S}
    (r : Respects laws others) (svc : Service) (k : StreamKey) (d : String) (plan : VersionPlan)
    (auto : plan.pinned ≡ false) (propose : List Event → Outcome Proposal)
    (sees : Sees propose) where
  abbrev t : String
  t = k.aggregate_type

  abbrev id : String
  id = k.aggregate_id

  abbrev attempt : ℕ → World S → Outcome Result × World S
  attempt = retry ops others svc t id d plan propose

  abbrev batch : Proposal → List AppendEvent
  batch = batch_of ops others svc t id d plan propose

  module _ (left : ℕ) (w : World S) (h : laws.IsValid w.store) where
    abbrev at : World S
    at = found ops others svc t id d plan propose left w

    at_waited : Waits others w at
    at_waited = next (next here refl) refl

    at-IsValid : laws.IsValid at.store
    at-IsValid = (Waits-Continues laws r at_waited h).0

    -- What was read is still the stream when the append runs, if the append is accepted.
    unmoved :
        (events : List Event) (p : Proposal)
        → loaded ops others svc t id d plan propose left w ≡ ok events
        → propose events ≡ ok p
        → (expected_version_for plan p.version ≡ no_version_check)
          ⊎ (expected_version_for plan p.version ≡ int64 (length (stream k (laws.log at.store))))
        → length (laws.log at.store) < 2 ^ 63
        → stream k (laws.log at.store) ≡ events
    unfolding expected_version_for
    unmoved events p e q fits small =
        let hv = r.stays_valid w.calls w.store h in
        let (more, c) = r.continues (suc w.calls) (arrive others w).store hv in
        let read = laws.loads k (arrive others w).store hv e in
        let now : stream k (laws.log at.store) ≡ events ++ stream k more =
          rw (c, read) (select-append (λ x. key_of x == k) _ more) in
        let short : length (stream k (laws.log at.store)) < 2 ^ 63 =
          omega (arith, length-select-le (λ x. key_of x == k) (laws.log at.store)) in
        rw now (
          still_as_read events (stream k more) p.version
            (sees events p (rw read (laws.versioned _ hv k)) q) (rw (auto, now) at fits)
            (rw now at short))

    abbrev ended : Proposal → Outcome Result × World S
    ended p = settled laws others svc t id d left (attempt left) (batch p) at at-IsValid

    abbrev wrote_by : Proposal → Outcome (List Event × Bool) × S
    wrote_by p = appended laws others svc t id d left (attempt left) (batch p) at at-IsValid

    -- The append wrote its event.
    written :
        (events produced : List Event) (p : Proposal)
        → loaded ops others svc t id d plan propose left w ≡ ok events
        → propose events ≡ ok p
        → (wrote_by p).0 ≡ ok (produced, false)
        → length (laws.log (ended p).1.store) < 2 ^ 63
        → Committed laws others k d propose w (ended p)
    written events produced p e q a small =
        let wrote = laws.writes d (batch p) at.store at-IsValid a in
        let (event, one, rec) = Recorded-one d _ produced wrote.recorded in
        let a' : (wrote_by p).0 ≡ ok (event ∷ [], false) = rw one at a in
        let stored : (ended p).1.store ≡ (wrote_by p).1 = rw a' (
          settled_store ops others svc t id left (attempt left) event []
            (record at { store = (wrote_by p).1 })) in
        let grown : laws.log (ended p).1.store ≡ laws.log at.store ++ event ∷ [] =
          rw stored (wrote.grown ∙ ap (λ l. laws.log at.store ++ l) one) in
        let short : length (laws.log at.store) < 2 ^ 63 =
          omega (
            arith,
            length-append (laws.log at.store) (event ∷ []),
            ap (length {A = Event}) grown,
          ) in
        record {
          at = at;
          waited = at_waited;
          valid = at-IsValid;
          proposal = p;
          decided = rw (unmoved events p e q wrote.admitted.0 short) q;
          event = event;
          grown = grown;
          stored_under = rec.stored_under;
          stored_type = rec.stored_type;
          stored_payload = rec.stored_payload;
          stored_key = rec.stored_key;
          first_use = wrote.fresh;
          numbered =
              numbered_last laws k (ended p).1.store (laws.log at.store) event
                (rw stored (laws.keeps_valid d (batch p) at.store at-IsValid)) grown
                rec.stored_under;
          reported = rw a' (
              settled_result ops others svc t id left (attempt left) event []
                (record at { store = (wrote_by p).1 }));
        }

  pub Ends-wait :
      {w v : World S} {x : Outcome Result × World S}
      → Waits others w v
      → Ends laws others k d propose v x
      → Ends laws others k d propose w x
  Ends-wait a (inl (idle, b)) = inl (idle, Waits-trans a b)
  Ends-wait a (inr c) = inr (record {
    waited = Waits-trans a c.waited;
    at = c.at;
    valid = c.valid;
    proposal = c.proposal;
    decided = c.decided;
    event = c.event;
    grown = c.grown;
    stored_under = c.stored_under;
    stored_type = c.stored_type;
    stored_payload = c.stored_payload;
    stored_key = c.stored_key;
    first_use = c.first_use;
    numbered = c.numbered;
    reported = c.reported;
  })

  -- The end of an attempt whose append ran, given how the remaining attempts end.
  ended-Ends :
      (left : ℕ) (w : World S) (events : List Event) (p : Proposal)
      → (h : laws.IsValid w.store) → loaded ops others svc t id d plan propose left w ≡ ok events
      → propose events ≡ ok p
      → length (laws.log (ended left w h p).1.store) < 2 ^ 63
      → (length (laws.log (attempt left (at left w h)).1.store) < 2 ^ 63
          → Ends laws others k d propose (at left w h) (attempt left (at left w h)))
      → Ends laws others k d propose w (ended left w h p)
  ended-Ends left w events p h l q small again =
      elim (settled_cases laws others svc t id d left (attempt left) (batch p) (at left w h)
        (at-IsValid left w h)) [
          | inl on ↦ rw on (Ends-wait (at_waited left w h) (again (rw on at small)))
          | inr (inl (idle, i, on)) ↦ rw on (inl (i, at_waited left w h))
          | inr (inr (produced, a)) ↦ inr (written left w h events produced p l q a small)
        ]

  -- A command's loop, in auto mode, with any number of attempts left.
  pub retry-Ends :
      (left : ℕ) (w : World S)
      → laws.IsValid w.store
      → length (laws.log (attempt left w).1.store) < 2 ^ 63
      → Ends laws others k d propose w (attempt left w)
  unfolding retry
  retry-Ends zero w h small = inl (tt, here)
  retry-Ends (suc left) w h small =
      elim (Outcome-cases (loaded ops others svc t id d plan propose left w)) [
        | inr (fault, l) ↦
            rw (retry-load_err ops others svc t id d plan propose left w l)
              (inl (tt, next here refl))
        | inl (events, l) ↦ elim (Outcome-cases (propose events)) [
          | inr (fault, q) ↦
              rw (retry-propose_err ops others svc t id d plan propose left w l q)
                (inl (tt, next here refl))
          | inl (p, q) ↦
              let step = retry-append ops others svc t id d plan propose left w l q in
              rw step (
                ended-Ends left w events p h l q (rw step at small)
                  (retry-Ends left (at left w h) (at-IsValid left w h)))
        ]
      ]
