-- ===== src/Ledger/Service/Attempt.antt =====
-- One turn of the retry loop, case by case, and why a version that still fits means that the stream
-- has not moved.
use mathlib.Core.List.{append-nil}
use streamledger.Prelude.{
  ℕ, suc, ◌^◌, ◌<◌, ◌≡◌, ◌⊎◌, inl, inr, sym, ◌∙◌, List, [], ◌∷◌, ◌++◌, String, arith, length,
  length-append, ℤ,
}
use streamledger.Int64.{int64, int64-pos, int64_injective}
use streamledger.Outcome.{Error, Outcome, ok, err}
use streamledger.EventStore.{AppendEvent, Event, Store, no_version_check}
use streamledger.Ledger.Command.{World, Others, arrive, call_load_stream, call_append}
use streamledger.Ledger.Service.{
  Service, VersionPlan, Proposal, expected_version_for, retry, settle,
}

-- A list of events that was continued has the same length only if nothing was added.
nothing_added : (xs more : List Event) → length (xs ++ more) ≡ length xs → xs ++ more ≡ xs
nothing_added xs [] h = append-nil xs
nothing_added xs (e ∷ more) h = absurd (omega (arith, length-append xs (e ∷ more)))

-- The version that was read fits the stream as it now is: then the stream is as it was read.
pub still_as_read :
    (read more : List Event) (v : ℤ)
    → v ≡ int64 (length read)
    → (v ≡ no_version_check) ⊎ (v ≡ int64 (length (read ++ more)))
    → length (read ++ more) < 2 ^ 63
    → read ++ more ≡ read
still_as_read read more v e fits small =
    let short : length read < 2 ^ 63 = omega (arith, length-append read more) in
    elim fits [
      | inl unchecked ↦ absurd (ground (arith, int64-pos (length read) short))
      | inr same ↦
          nothing_added read more
            (sym (int64_injective (length read) (length (read ++ more)) short small (sym e ∙ same)))
    ]

module _ {S : Type 0} (ops : Store S) (others : Others S) (svc : Service) (t id d : String)
    (plan : VersionPlan) (propose : List Event → Outcome Proposal) where
  -- the batch of one event that an attempt appends
  abbrev pub batch_of : Proposal → List AppendEvent
  batch_of p =
      record {
        aggregate_type = t;
        aggregate_id = id;
        event_type = p.event_type;
        payload = p.payload;
        expected_version = expected_version_for plan p.version;
      }
      ∷ []

  module _ (left : ℕ) (w : World S) where
    abbrev pub loaded : Outcome (List Event)
    loaded = ops.load_stream t id (arrive others w).store

    -- the store as the append finds it
    abbrev pub found : World S
    found = arrive others (arrive others w)

    pub retry-load_err :
        {x : Error}
        → loaded ≡ err x
        → retry ops others svc t id d plan propose (suc left) w ≡ (err x, arrive others w)
    unfolding retry call_load_stream
    retry-load_err e = rw e

    pub retry-propose_err :
        {x : Error} {events : List Event}
        → loaded ≡ ok events
        → propose events ≡ err x
        → retry ops others svc t id d plan propose (suc left) w ≡ (err x, arrive others w)
    unfolding retry call_load_stream
    retry-propose_err e q = rw (e, q)

    pub retry-append :
        {events : List Event} {p : Proposal}
        → loaded ≡ ok events
        → propose events ≡ ok p
        → retry ops others svc t id d plan propose (suc left) w
          ≡ settle ops others svc t id left
              (retry ops others svc t id d plan propose left)
              (ops.append d (batch_of p) found.store).0
              (record found { store = (ops.append d (batch_of p) found.store).1 })
    unfolding retry call_load_stream call_append
    retry-append e q = rw (e, q)
