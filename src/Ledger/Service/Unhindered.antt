-- ===== src/Ledger/Service/Unhindered.antt =====
-- Commands on one stream that nobody comes between, on the in-process log.
use streamledger.Prelude.{
  ℕ, suc, ◌^◌, ◌-◌, ◌≡◌, inl, inr, refl, sym, ap, ◌∙◌, true, false, Bool-cases, none, some, List,
  [], ◌∷◌, String, arith, length, pos, pos_part, ◌<ℤ◌, ◌+ℤ◌, ◌==◌, string_eq,
}
use streamledger.Int64.{int64, add64, wrap64, inc64-int64}
use streamledger.Outcome.{Outcome, ok, err, ◌>>=◌, Outcome-cases}
use streamledger.EventStore.{AppendEvent, Event, StreamKey, stream_key_eq, no_version_check, stream}
use streamledger.EventStore.Contract.{lengths, Admissible}
use streamledger.EventStore.Memory.{
  MemoryStore, memory_store, prior_events, lookup_dedupe, load_stream, append, commit, write_all,
  write,
}
use streamledger.EventStore.Memory.Cases.{append-cases}
use streamledger.EventStore.Memory.Counting.{IsCounted}
use streamledger.EventStore.Memory.Invariant.{IsValid}
use streamledger.EventStore.Memory.Validation.{validate_exact}
use streamledger.Ledger.Command.{World, Others, arrive, call_lookup_dedupe}
use streamledger.Ledger.Service.{
  Result, Service, Proposal, max_retries, plan_version, expected_version_for, run_command, retry,
  processed,
}
use streamledger.Ledger.Service.Settle.{settled_result}
use streamledger.Ledger.Service.Attempt.{retry-append, retry-propose_err}
use streamledger.Ledger.Service.Commit.{Sees}

-- Nobody else is there.
abbrev pub nobody : Others MemoryStore
nobody n s = s

-- An admissible batch under a fresh key is written.
pub append-fresh :
    (d : String) (batch : List AppendEvent) (s : MemoryStore)
    → IsCounted s
    → prior_events d s ≡ none
    → Admissible (lengths s.events) batch
    → append d batch s ≡ (ok ((commit d batch s).0, false), (commit d batch s).1)
append-fresh d batch s h fresh fits = elim (append-cases d batch s) [
  | inl (prior, q, _) ↦ let bad : some prior ≡ none = sym q ∙ fresh in cc
  | inr (inl (x, _, v, _)) ↦ elim (validate_exact s batch h) [
    | inl (good, _) ↦ let bad : err x ≡ ok tt = sym v ∙ good in cc
    | inr (_, unfit) ↦ absurd (unfit fits)
  ]
  | inr (inr (_, _, q)) ↦ q
]

-- One event that is written carries the next version of its stream.
commit-one :
    (d : String) (a : AppendEvent) (s : MemoryStore)
    → IsCounted s
    → (e : Event) × ((commit d (a ∷ []) s).0 ≡ e ∷ [])
      × (e.version
          ≡ int64 (
              suc (
                length (
                  stream
                    (record { aggregate_type = a.aggregate_type; aggregate_id = a.aggregate_id })
                    s.events))))
unfolding commit write_all write
commit-one d a s h =
    let k : StreamKey = record {
      aggregate_type = a.aggregate_type;
      aggregate_id = a.aggregate_id;
    } in
    (_, refl, ap (λ v. add64 v (pos 1)) (h.current k) ∙ inc64-int64 (length (stream k s.events)))

lookup_dedupe-fresh :
    (d : String) (s : MemoryStore) → prior_events d s ≡ none → lookup_dedupe d s ≡ ok ([], false)
unfolding lookup_dedupe
lookup_dedupe-fresh d s fresh = rw (lookup_dedupe, fresh)

module _ (svc : Service) (d : String) (w : World MemoryStore) where
  processed-fresh :
      prior_events d w.store ≡ none
      → (w' : World MemoryStore) × (processed memory_store nobody svc d w ≡ (ok none, w'))
        × (w'.store ≡ w.store)
  unfolding processed call_lookup_dedupe
  processed-fresh fresh = elim (Bool-cases (d == "")) [
    | inl empty ↦ (w, rw empty, refl)
    | inr key ↦ (arrive nobody w, rw (key, lookup_dedupe-fresh d w.store fresh), refl)
  ]

-- One attempt and the retries are made, unless MaxRetries is the largest int.
pub attempts_lem :
    (svc : Service)
    → svc.max_retries <ℤ pos (2 ^ 63 - 1)
    → pos_part (plan_version svc no_version_check).max_attempts ≡ suc (pos_part (max_retries svc))
unfolding plan_version max_retries add64 wrap64 ◌+ℤ◌
attempts_lem svc h = ground arith

module _ (svc : Service) (k : StreamKey) (d : String) (propose : List Event → Outcome Proposal)
    (sees : Sees propose) where
  -- One attempt that nobody comes between.
  retry-applies :
      (left : ℕ) (w : World MemoryStore) (p : Proposal)
      → IsValid w.store
      → prior_events d w.store ≡ none
      → propose (stream k w.store.events) ≡ ok p
      → (retry memory_store nobody svc k.aggregate_type k.aggregate_id d
          (plan_version svc no_version_check)
          propose
          (suc left)
          w).0
        ≡ ok (record {
          applied = true;
          duplicate = false;
          new_version = int64 (suc (length (stream k w.store.events)));
        })
  unfolding load_stream plan_version expected_version_for
  retry-applies left w p h fresh good =
      let plan = plan_version svc no_version_check in
      let seen = sees (stream k w.store.events) p (h.counted.versioned k) good in
      let a : AppendEvent = record {
        aggregate_type = k.aggregate_type;
        aggregate_id = k.aggregate_id;
        event_type = p.event_type;
        payload = p.payload;
        expected_version = expected_version_for plan p.version;
      } in
      let wrote = append-fresh d (a ∷ []) w.store h.counted fresh (inr seen, tt) in
      let (e, one, v) = commit-one d a w.store h.counted in
      let again =
        retry memory_store nobody svc k.aggregate_type k.aggregate_id d plan propose left in
      let reported =
        settled_result memory_store nobody svc k.aggregate_type k.aggregate_id left again e []
          (record (arrive nobody (arrive nobody w)) { store = (commit d (a ∷ []) w.store).1 }) in
      rw (
        retry-append memory_store nobody svc k.aggregate_type k.aggregate_id d plan propose left w
            refl good,
        wrote,
        one,
        reported,
        v,
      )

  abbrev pub applied_at : ℕ → Result
  applied_at n = record { applied = true; duplicate = false; new_version = int64 n }

  -- On a valid in-process log, with nobody else there, a one-stream command in auto mode under a
  -- fresh key (or none) reports just what its rule says of the stream: the rule's error, or that it
  -- was applied as the next version of the stream. (MaxRetries is not the largest int.)
  pub run_command_decides :
      (w : World MemoryStore)
      → svc.max_retries <ℤ pos (2 ^ 63 - 1)
      → IsValid w.store
      → prior_events d w.store ≡ none
      → (run_command memory_store nobody svc k.aggregate_type k.aggregate_id d no_version_check
          propose w).0
        ≡ (propose (stream k w.store.events) >>= λ _.
            ok (applied_at (suc (length (stream k w.store.events)))))
  unfolding run_command load_stream
  run_command_decides w few h fresh =
      let (w', checked, same) = processed-fresh svc d w fresh in
      let left = pos_part (max_retries svc) in
      let some_left = attempts_lem svc few in
      let plan = plan_version svc no_version_check in
      elim (Outcome-cases (propose (stream k w.store.events))) [
        | inl (p, good) ↦
            rw (checked, some_left, good)
              (retry-applies left w' p (rw same h) (rw same fresh) (rw same good)
                ∙ ap (λ (s : MemoryStore). ok (applied_at (suc (length (stream k s.events))))) same)
        | inr (x, bad) ↦
            let stops =
              retry-propose_err memory_store nobody svc k.aggregate_type k.aggregate_id d plan
                propose left w' {x = x} refl (rw same bad) in
            rw (checked, some_left, bad, stops)
      ]
