-- ===== src/Ledger/Service/Run.antt =====
-- The commands on one stream as a whole: the dedupe check, then the loop.
use streamledger.Prelude.{
  ◌^◌, ◌<◌, ◌≡◌, inl, inr, refl, false, none, some, List, String, Bool-cases, length, ◌==◌,
  string_eq,
}
use streamledger.Outcome.{Outcome, Outcome-cases}
use streamledger.EventStore.{Event, Store, StreamKey, no_version_check}
use streamledger.EventStore.Contract.{Lawful}
use streamledger.Ledger.Command.{World, Others, arrive, call_lookup_dedupe}
use streamledger.Ledger.Interleaving.{Respects, Waits, here, next, Waits-Continues}
use streamledger.Ledger.Service.{
  Result, Service, Proposal, plan_version, run_command, processed, duplicate_result,
}
use streamledger.Ledger.Service.Commit.{Sees, Ends, Ends-wait, retry-Ends}

module _ {S : Type 0} (ops : Store S) (others : Others S) (svc : Service) (d : String)
    (w : World S) where
  -- The dedupe check only reads.
  pub processed-Waits : Waits others w (processed ops others svc d w).1
  unfolding processed call_lookup_dedupe
  processed-Waits = elim (Bool-cases (d == "")) [
    | inl empty ↦ rw empty here
    | inr key ↦ rw key (elim (Outcome-cases (ops.lookup_dedupe d (arrive others w).store)) [
      | inl (found, l) ↦ rw l (next here refl)
      | inr (x, l) ↦ rw l (next here refl)
    ])
  ]

-- Where the caller pins no version, the plan is the automatic one.
plan_version-auto : (svc : Service) → (plan_version svc no_version_check).pinned ≡ false
unfolding plan_version
plan_version-auto svc = refl

module _ {S : Type 0} {ops : Store S} (laws : Lawful ops) {others : Others S}
    (r : Respects laws others) (svc : Service) (k : StreamKey) (d : String)
    (propose : List Event → Outcome Proposal) (sees : Sees propose) where
  -- The command in auto mode.
  abbrev pub auto_run : World S → Outcome Result × World S
  auto_run = run_command ops others svc k.aggregate_type k.aggregate_id d no_version_check propose

  -- A one-stream command in auto mode, whose rule accepts only a stream that has events, on a valid
  -- store, with others that keep it valid and only append, in a log that stays below 2^63 events: it
  -- changes and publishes nothing and reports no new result, or it appends one event, which its
  -- rule decided from the stream exactly as it stands when the append runs.
  pub run_command-Ends :
      (w : World S)
      → laws.IsValid w.store
      → length (laws.log (auto_run w).1.store) < 2 ^ 63
      → Ends laws others k d propose w (auto_run w)
  unfolding run_command
  run_command-Ends w h small =
      let wt = processed-Waits ops others svc d w in
      elim (Outcome-cases (processed ops others svc d w).0) [
        | inr (x, e) ↦ rw e (inl (tt, wt))
        | inl (some events, e) ↦ rw e (inl (unfold duplicate_result in (refl, refl), wt))
        | inl (none, e) ↦ rw e (
            Ends-wait laws r svc k d (plan_version svc no_version_check) (plan_version-auto svc)
              propose sees wt
              (retry-Ends laws r svc k d (plan_version svc no_version_check) (plan_version-auto svc)
                propose sees _ _ (Waits-Continues laws r wt h).0 (rw e at small)))
      ]
