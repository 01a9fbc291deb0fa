-- ===== src/Ledger/Service/Contention.antt =====
-- Commands on one stream whose rivals stop, on the in-process log.
use streamledger.Prelude.{
  ℕ, zero, suc, ◌+◌, ◌*◌, ◌-◌, ◌≤◌, ◌^◌, ◌≡◌, ◌≢◌, inl, inr, refl, sym, ap, ◌∙◌, Bool, true, false,
  Bool-cases, Option, Option-cases, none, some, List, [], ◌∷◌, String, arith, pos, pos_part, ltb,
  ◌<ℤ◌, ◌==◌, string_eq, if◌then◌else◌,
}
use streamledger.Outcome.{
  Error, Outcome, ok, err, version_conflict, is_version_conflict, Outcome-cases,
}
use streamledger.EventStore.{AppendEvent, Event, StreamKey, stream_key_eq, no_version_check, stream}
use streamledger.EventStore.Contract.{lengths, Admissible}
use streamledger.EventStore.Memory.{
  MemoryStore, memory_store, prior_events, lookup_dedupe, load_stream, append,
}
use streamledger.EventStore.Memory.Cases.{append-cases}
use streamledger.EventStore.Memory.Counting.{IsCounted}
use streamledger.EventStore.Memory.Invariant.{IsValid}
use streamledger.EventStore.Memory.Validation.{validate_exact}
use streamledger.EventStore.Memory.Fulfils.{memory_lawful, refuses_lem}
use streamledger.Ledger.Command.{World, Others, arrive, call_lookup_dedupe}
use streamledger.Ledger.Interleaving.{Respects}
use streamledger.Ledger.Service.{
  Result, Service, Proposal, max_retries, plan_version, expected_version_for, run_command, retry,
  settle, processed, duplicate_result, publish, applied_result,
}
use streamledger.Ledger.Service.Attempt.{retry-append, retry-propose_err, batch_of}
use streamledger.Ledger.Service.Commit.{Sees}
use streamledger.Ledger.Service.Unhindered.{attempts_lem}

-- From their c-th turn on, the other clients leave the store alone.
abbrev pub StopAt : Others MemoryStore → ℕ → Type 0
StopAt others c = (n : ℕ) (s : MemoryStore) → c ≤ n → others n s ≡ s

-- The command does not give up on account of a conflict.
abbrev pub Settles : Outcome Result → Type 0
Settles r = r ≢ err version_conflict

ok-Settles : (r : Result) → Settles (ok r)
ok-Settles r h = absurd (ground arith)

-- An admissible batch is not refused.
append-admitted :
    (d : String) (batch : List AppendEvent) (s : MemoryStore)
    → IsCounted s
    → Admissible (lengths s.events) batch
    → (r : List Event × Bool) × ((append d batch s).0 ≡ ok r)
append-admitted d batch s h fits = elim (append-cases d batch s) [
  | inl (prior, q, a) ↦ ((prior, true), ap (λ x. x.0) a)
  | inr (inl (x, _, v, _)) ↦ elim (validate_exact s batch h) [
    | inl (good, _) ↦ let bad : err x ≡ ok tt = sym v ∙ good in absurd (ground arith)
    | inr (_, unfit) ↦ absurd (unfit fits)
  ]
  | inr (inr (_, _, q)) ↦ ((_, false), ap (λ x. x.0) q)
]

lookup_dedupe_lem :
    (d : String) (s : MemoryStore) → (r : List Event × Bool) × (lookup_dedupe d s ≡ ok r)
unfolding lookup_dedupe
lookup_dedupe_lem d s = elim (Option-cases (prior_events d s)) [
  | inl fresh ↦ (([], false), ground arith)
  | inr (events, q) ↦ ((events, true), ground arith)
]

module _ (others : Others MemoryStore) (r : Respects memory_lawful others) (c : ℕ)
    (stop : StopAt others c) (svc : Service) (k : StreamKey) (d : String)
    (propose : List Event → Outcome Proposal) (sees : Sees propose)
    (decides : (events : List Event) → propose events ≢ err version_conflict) where
  abbrev attempt : ℕ → World MemoryStore → Outcome Result × World MemoryStore
  attempt =
      retry memory_store others svc k.aggregate_type k.aggregate_id d
        (plan_version svc no_version_check) propose

  abbrev batch : Proposal → List AppendEvent
  batch =
      batch_of memory_store others svc k.aggregate_type k.aggregate_id d
        (plan_version svc no_version_check) propose

  abbrev found : World MemoryStore → World MemoryStore
  found w = arrive others (arrive others w)

  found-IsValid : (w : World MemoryStore) → IsValid w.store → IsValid (found w).store
  found-IsValid w h =
      r.stays_valid (suc w.calls) (arrive others w).store (r.stays_valid w.calls w.store h)

  -- The end of an attempt by what its append reports, given how the next one ends.
  settle-Settles :
      (left : ℕ) (again : World MemoryStore → Outcome Result × World MemoryStore)
      (x : Outcome (List Event × Bool)) (w : World MemoryStore)
      → ((e : Error) → x ≡ err e → ltb 0 left ≡ true → Settles (again w).0)
      → ((e : Error) → x ≡ err e → ltb 0 left ≡ true)
      → Settles (settle memory_store others svc k.aggregate_type k.aggregate_id left again x w).0
  unfolding settle publish applied_result
  settle-Settles left again (ok (events, true)) w next last =
      ok-Settles (duplicate_result events k.aggregate_type k.aggregate_id)
  settle-Settles left again (ok ([], false)) w next last = λ h. absurd (ground arith)
  settle-Settles left again (ok (e ∷ events, false)) w next last = ok-Settles _
  settle-Settles left again (err e) w next last =
      let more = last e refl in
      elim (Bool-cases (is_version_conflict e)) [
        | inl conflict ↦ rw (conflict, more) (next e refl more)
        | inr other ↦
            rw other (λ h. (let is : e ≡ version_conflict = ground arith in absurd (ground arith)))
      ]

  -- Where the others have stopped, what was read is what the append finds.
  quiet-Admissible :
      (w : World MemoryStore) (p : Proposal)
      → IsValid w.store
      → c ≤ w.calls
      → propose (stream k (arrive others w).store.events) ≡ ok p
      → Admissible (lengths (found w).store.events) (batch p)
  unfolding plan_version expected_version_for
  quiet-Admissible w p h quiet good =
      let first = stop w.calls w.store quiet in
      let second = stop (suc w.calls) (arrive others w).store (omega (arith, quiet)) in
      let valid = r.stays_valid w.calls w.store h in
      let seen =
        sees (stream k (arrive others w).store.events) p (valid.counted.versioned k) good in
      rw second (inr seen, tt)

  -- The batch of an attempt that the others do not disturb is not refused.
  quiet-accepted :
      (w : World MemoryStore) (p : Proposal) (e : Error)
      → IsValid w.store
      → c ≤ w.calls
      → propose (stream k (arrive others w).store.events) ≡ ok p
      → (append d (batch p) (found w).store).0 ≢ err e
  quiet-accepted w p e h quiet good refused =
      let (result, q) =
        append-admitted d (batch p) (found w).store (found-IsValid w h).counted
          (quiet-Admissible w p h quiet good) in
      let bad : ok result ≡ err e = sym q ∙ refused in absurd (ground arith)

  -- One attempt, given how the next one ends and that there is one after a refusal.
  step-Settles :
      (left : ℕ) (w : World MemoryStore)
      → (ltb 0 left ≡ true → Settles (attempt left (found w)).0)
      → ((p : Proposal) (e : Error)
          → propose (stream k (arrive others w).store.events) ≡ ok p
          → (append d (batch p) (found w).store).0 ≡ err e
          → ltb 0 left ≡ true)
      → Settles (attempt (suc left) w).0
  unfolding load_stream
  step-Settles left w next last =
      elim (Outcome-cases (propose (stream k (arrive others w).store.events))) [
        | inr (x, bad) ↦
            let stops =
              retry-propose_err memory_store others svc k.aggregate_type k.aggregate_id d
                (plan_version svc no_version_check) propose left w {x = x} refl bad in
            rw stops
              (λ q. (let is : x ≡ version_conflict = ground arith in decides _ (bad ∙ ap err is)))
        | inl (p, good) ↦
            let step =
              retry-append memory_store others svc k.aggregate_type k.aggregate_id d
                (plan_version svc no_version_check) propose left w refl good in
            let r = append d (batch p) (found w).store in
            rw step (
              settle-Settles left (attempt left) r.0 (record (found w) { store = r.1 })
                (λ e refused more. rw (refuses_lem d (batch p) (found w).store refused) (next more))
                (λ e refused. last p e good refused))
      ]

  -- The attempts that are left reach beyond the others' last turn.
  pub retry-Settles :
      (left : ℕ) (w : World MemoryStore)
      → IsValid w.store
      → c ≤ w.calls + 2 * left
      → Settles (attempt (suc left) w).0
  retry-Settles zero w h enough =
      step-Settles zero w (λ more. absurd (ground arith))
        (λ p e good refused. absurd (quiet-accepted w p e h (omega (arith, enough)) good refused))
  retry-Settles (suc left) w h enough =
      step-Settles (suc left) w
        (λ more. retry-Settles left (found w) (found-IsValid w h) (omega (arith, enough)))
        (λ p e good refused. ground arith)

  -- What the check of the key finds, and where it leaves the world.
  processed-cases :
      (w : World MemoryStore)
      → IsValid w.store
      → (w' : World MemoryStore) × (prior : Option (List Event)) × (processed memory_store others
            svc d w
          ≡ (ok prior, w'))
        × IsValid w'.store
        × (w.calls ≤ w'.calls)
  unfolding processed call_lookup_dedupe
  processed-cases w h = elim (Bool-cases (d == "")) [
    | inl empty ↦ (w, none, rw empty refl, h, omega arith)
    | inr key ↦
        let valid = r.stays_valid w.calls w.store h in
        let ((events, there), q) = lookup_dedupe_lem d (arrive others w).store in
        (arrive others w, if there then some events else none, rw (key, q) refl, valid, omega arith)
  ]

  -- On a valid in-process log, among clients that keep it valid and only append, and that leave it alone
  -- from a turn on that is at most two turns for each retry away, a one-stream command in auto mode
  -- whose rule reports no version conflict does not end with one. (MaxRetries is not the
  -- largest int.)
  pub run_command-Settles :
      (w : World MemoryStore)
      → svc.max_retries <ℤ pos (2 ^ 63 - 1)
      → IsValid w.store
      → c ≤ w.calls + 2 * pos_part (max_retries svc)
      → Settles
          (run_command memory_store others svc k.aggregate_type k.aggregate_id d no_version_check
            propose w).0
  unfolding run_command
  run_command-Settles w few h enough =
      let (w', prior, checked, h', later) = processed-cases w h in
      elim prior
          as (λ prior.
            processed memory_store others svc d w ≡ (ok prior, w')
            → Settles
                (run_command memory_store others svc k.aggregate_type k.aggregate_id d
                  no_version_check propose w).0) [
                    | some events ↦ λ checked.
                        rw checked
                          (ok-Settles (duplicate_result events k.aggregate_type k.aggregate_id))
                    | none ↦ λ checked.
                        rw (checked, attempts_lem svc few)
                          (retry-Settles (pos_part (max_retries svc)) w' h'
                            (omega (arith, enough, later)))
                  ]
        checked
