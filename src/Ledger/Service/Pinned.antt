-- ===== src/Ledger/Service/Pinned.antt =====
-- Commands on one stream whose caller pins the version (internal/ledger/service.go, planVersion).
use streamledger.Prelude.{
  ℕ, suc, ◌≡◌, ◌≢◌, ◌⊎◌, inl, inr, refl, sym, ap, ◌∙◌, Bool, true, false, none, some, List, [], ◌∷◌,
  ◌++◌, String, arith, length, ℤ, pos, eqb_ℤ,
}
use streamledger.Int64.{int64, add64, inc64-int64}
use streamledger.Outcome.{Outcome, ok, Outcome-cases}
use streamledger.EventStore.{
  AppendEvent, Event, Store, StreamKey, stream_key_eq, key_of, no_version_check, stream,
}
use streamledger.EventStore.Contract.{Lawful, Expects, lengths}
use streamledger.Ledger.Command.{World, Others}
use streamledger.Ledger.Interleaving.{Respects, Waits, here, next, Waits-trans, Waits-Continues}
use streamledger.Ledger.Service.{
  Result, Service, VersionPlan, Proposal, plan_version, expected_version_for, run_command, retry,
  processed, duplicate_result,
}
use streamledger.Ledger.Service.Settle.{
  Silent, settled, appended, settled_cases, settled_result, settled_store,
}
use streamledger.Ledger.Service.Attempt.{
  batch_of, loaded, found, retry-load_err, retry-propose_err, retry-append,
}
use streamledger.Ledger.Service.Commit.{Recorded-one, numbered_last}
use streamledger.Ledger.Service.Run.{processed-Waits}

module _ {S : Type 0} {ops : Store S} (laws : Lawful ops) (others : Others S) (k : StreamKey)
    (v : ℤ) where
  -- The command appended one event to a stream of exactly the pinned version.
  pub record PinnedCommit (w : World S) (x : Outcome Result × World S) : Type 0 where
    pub at : World S
    pub waited : Waits others w at
    pub event : Event
    pub grown : laws.log x.1.store ≡ laws.log at.store ++ event ∷ []
    pub stored_under : key_of event ≡ k
    pub pinned_length : v ≡ int64 (length (stream k (laws.log at.store)))
    pub reported :
        x.0 ≡ ok (record { applied = true; duplicate = false; new_version = add64 v (pos 1) })

module _ {S : Type 0} {ops : Store S} (laws : Lawful ops) {others : Others S}
    (r : Respects laws others) (svc : Service) (k : StreamKey) (d : String) (v : ℤ)
    (given : v ≢ no_version_check) (propose : List Event → Outcome Proposal) where
  abbrev t : String
  t = k.aggregate_type

  abbrev id : String
  id = k.aggregate_id

  abbrev plan : VersionPlan
  plan = record { pinned = true; pinned_value = v; max_attempts = pos 1 }

  plan_lem : plan_version svc v ≡ plan
  unfolding plan_version
  plan_lem = let other : eqb_ℤ v no_version_check ≡ false = ground arith in rw other refl

  abbrev attempt : ℕ → World S → Outcome Result × World S
  attempt = retry ops others svc t id d plan propose

  abbrev batch : Proposal → List AppendEvent
  batch = batch_of ops others svc t id d plan propose

  module _ (w : World S) (h : laws.IsValid w.store) where
    abbrev at : World S
    at = found ops others svc t id d plan propose 0 w

    at_waited : Waits others w at
    at_waited = next (next here refl) refl

    at-IsValid : laws.IsValid at.store
    at-IsValid = (Waits-Continues laws r at_waited h).0

    abbrev ended : Proposal → Outcome Result × World S
    ended p = settled laws others svc t id d 0 (attempt 0) (batch p) at at-IsValid

    abbrev wrote_by : Proposal → Outcome (List Event × Bool) × S
    wrote_by p = appended laws others svc t id d 0 (attempt 0) (batch p) at at-IsValid

    expects_lem :
        (p : Proposal)
        → Expects (lengths (laws.log at.store)) (record {
          aggregate_type = t;
          aggregate_id = id;
          event_type = p.event_type;
          payload = p.payload;
          expected_version = expected_version_for plan p.version;
        })
        → v ≡ int64 (length (stream k (laws.log at.store)))
    unfolding expected_version_for
    expects_lem p (inl unchecked) = absurd (given unchecked)
    expects_lem p (inr fits) = fits

    written :
        (p : Proposal) (produced : List Event)
        → (wrote_by p).0 ≡ ok (produced, false)
        → PinnedCommit laws others k v w (ended p)
    written p produced a =
        let wrote = laws.writes d (batch p) at.store at-IsValid a in
        let (event, one, rec) = Recorded-one d _ produced wrote.recorded in
        let a' : (wrote_by p).0 ≡ ok (event ∷ [], false) = rw one at a in
        let stored : (ended p).1.store ≡ (wrote_by p).1 = rw a' (
          settled_store ops others svc t id 0 (attempt 0) event []
            (record at { store = (wrote_by p).1 })) in
        let grown : laws.log (ended p).1.store ≡ laws.log at.store ++ event ∷ [] =
          rw stored (wrote.grown ∙ ap (λ l. laws.log at.store ++ l) one) in
        let fits = expects_lem p wrote.admitted.0 in
        let numbered : event.version ≡ int64 (suc (length (stream k (laws.log at.store)))) =
          numbered_last laws k (ended p).1.store (laws.log at.store) event
            (rw stored (laws.keeps_valid d (batch p) at.store at-IsValid)) grown rec.stored_under in
        let next_version : event.version ≡ add64 v (pos 1) =
          numbered
          ∙ sym (inc64-int64 (length (stream k (laws.log at.store))))
          ∙ ap (λ z. add64 z (pos 1)) (sym fits) in
        let reported : (ended p).0
            ≡ ok (record { applied = true; duplicate = false; new_version = event.version }) =
          rw a' (
            settled_result ops others svc t id 0 (attempt 0) event []
              (record at { store = (wrote_by p).1 })) in
        record {
          at = at;
          waited = at_waited;
          event = event;
          grown = grown;
          stored_under = rec.stored_under;
          pinned_length = fits;
          reported = rw (← next_version) reported;
        }

    attempt_once : Silent others w (attempt 1 w) ⊎ PinnedCommit laws others k v w (attempt 1 w)
    attempt_once = elim (Outcome-cases (loaded ops others svc t id d plan propose 0 w)) [
      | inr (fault, l) ↦
          rw (retry-load_err ops others svc t id d plan propose 0 w l) (inl (tt, next here refl))
      | inl (events, l) ↦ elim (Outcome-cases (propose events)) [
        | inr (fault, q) ↦
            rw (retry-propose_err ops others svc t id d plan propose 0 w l q)
              (inl (tt, next here refl))
        | inl (p, q) ↦
            rw (retry-append ops others svc t id d plan propose 0 w l q)
              (elim (settled_cases laws others svc t id d 0 (attempt 0) (batch p) at at-IsValid) [
                | inl on ↦ rw on (inl (unfold retry in (tt, at_waited)))
                | inr (inl (idle, i, on)) ↦ rw on (inl (i, at_waited))
                | inr (inr (produced, a)) ↦ inr (written p produced a)
              ])
      ]
    ]

  PinnedCommit-wait :
      {w u : World S} {x : Outcome Result × World S}
      → Waits others w u
      → Silent others u x ⊎ PinnedCommit laws others k v u x
      → Silent others w x ⊎ PinnedCommit laws others k v w x
  PinnedCommit-wait a (inl (idle, b)) = inl (idle, Waits-trans a b)
  PinnedCommit-wait a (inr c) = inr (record {
    at = c.at;
    waited = Waits-trans a c.waited;
    event = c.event;
    grown = c.grown;
    stored_under = c.stored_under;
    pinned_length = c.pinned_length;
    reported = c.reported;
  })

  -- The command with a pinned version.
  abbrev pub pinned_run : World S → Outcome Result × World S
  pinned_run = run_command ops others svc t id d v propose

  -- On a valid store, among clients that keep it valid and only append, a one-stream command that
  -- pins a version changes and publishes nothing and reports no new result, or it appends one event to
  -- its stream, at a moment when the stream has exactly the pinned version, and reports the next one.
  pub run_command-PinnedCommit :
      (w : World S)
      → laws.IsValid w.store
      → Silent others w (pinned_run w) ⊎ PinnedCommit laws others k v w (pinned_run w)
  unfolding run_command
  run_command-PinnedCommit w h =
      let wt = processed-Waits ops others svc d w in
      elim (Outcome-cases (processed ops others svc d w).0) [
        | inr (x, e) ↦ rw e (inl (tt, wt))
        | inl (some events, e) ↦ rw e (inl (unfold duplicate_result in (refl, refl), wt))
        | inl (none, e) ↦
            rw (e, plan_lem) (PinnedCommit-wait wt (attempt_once _ (Waits-Continues laws r wt h).0))
      ]
