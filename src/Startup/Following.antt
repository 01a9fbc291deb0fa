-- ===== src/Startup/Following.antt =====
-- How a projector starts (`subscribeAndCatchUp` of cmd/streamledger/main.go) on the in-process log and views.
use streamledger.Prelude.{
  ℕ, suc, ◌+◌, ◌<◌, ◌∙◌, sym, ap, inl, inr, [], ◌∷◌, if◌then◌else◌, ◌^◌, ◌≡◌, refl, some, Option,
  List, ◌++◌, String, length, string_eq,
}
use streamledger.Int64.{int64}
use streamledger.Outcome.{Outcome, ok, err, Outcome-cases}
use streamledger.Action.{Action}
use streamledger.EventStore.{Event}
use streamledger.EventStore.Memory.{MemoryStore, load_since}
use streamledger.EventStore.Memory.Counting.{IsCounted}
use streamledger.Bus.{Handler, MemoryBus, new_bus, subscribe, publish_in}
use streamledger.Bus.Duplicates.{projecting_bus, publish_once, once-nil, once-ok}
use streamledger.EventStore.Numbering.{Numbered}
use streamledger.Projections.Memory.{ReadModels, read_models}
use streamledger.Projections.Projector.{account_applier, apply_event, apply_batch}
use streamledger.Projections.Redelivery.{checkpoint_of, apply_batch-ok, apply_batch-err}
use streamledger.Projections.Mirror.{Mirrors, Replayable, accounts_projector, apply_batch-Mirrors}
use streamledger.Projections.CatchUp.{catch_up-Caught}
use streamledger.Startup.{catch_up_batch_size, subscribe_and_catch_up}

-- `Subscribe` of the in-memory bus, which reports no error.
abbrev pub join : Handler ReadModels → Action (MemoryBus ReadModels) (Unit {0})
join handler b = (ok tt, (subscribe handler b).1)

-- What is published goes through the projector like a batch.
once-batch :
    (name : String) (events : List Event) (applied : ℕ) (s : ReadModels)
    → (apply_batch (accounts_projector name) events applied s).0.1 ≡ ok tt
    → publish_once name (account_applier read_models) events s
      ≡ (ok tt, (apply_batch (accounts_projector name) events applied s).1)
unfolding apply_batch
once-batch name [] applied s h = once-nil name (account_applier read_models) s
once-batch name (e ∷ events) applied s h =
    let applier = account_applier read_models in
    elim (Outcome-cases (apply_event (accounts_projector name) e s).0) [
      | inr (x, q) ↦
          let bad : err x ≡ ok tt =
            ap (λ y. y.0.1) (sym (apply_batch-err name applier e events applied s q)) ∙ h in
          absurd (cc)
      | inl (hit, q) ↦
          let step = apply_batch-ok name applier e events applied s q in
          let rest =
            once-batch name events (if hit then suc applied else applied)
              (apply_event (accounts_projector name) e s).1 (rw step at h) in
          once-ok name applier e events s q ∙ rest ∙ ap (λ y. (ok tt, y.1)) (sym step)
    ]

module _ (name : String) (log : MemoryStore) (counted : IsCounted log)
    (small : length log.events < 2 ^ 63) (able : Replayable log.events) where
  -- The projector's start on a bus without subscribers, with the log's reads.
  abbrev pub started :
      ℕ → ReadModels → Option (Outcome (Unit {0})) × (MemoryBus ReadModels × ReadModels)
  started fuel s =
      subscribe_and_catch_up join (λ after limit. load_since after limit log)
        (accounts_projector name) fuel (new_bus, s)

  -- What the bus then does with later events.
  abbrev pub delivered : ℕ → ReadModels → List Event → Outcome (Unit {0}) × ReadModels
  delivered fuel s later =
      let (bus, views) = (started fuel s).1 in publish_in (λ handlers. handlers) bus later views

  start_ends :
      (fuel : ℕ) (done rest : List Event) (s : ReadModels)
      → log.events ≡ done ++ rest
      → Mirrors done s
      → checkpoint_of name (account_applier read_models) s ≡ int64 (length done)
      → length rest < fuel
      → ((started fuel s).0 ≡ some (ok tt))
        × ((started fuel s).1.0 ≡ projecting_bus name (account_applier read_models))
        × Mirrors log.events (started fuel s).1.1
        × (checkpoint_of name (account_applier read_models) (started fuel s).1.1
            ≡ int64 (length log.events))
  unfolding subscribe_and_catch_up
  start_ends fuel done rest s split h c enough =
      let (n, end, shows, at_end) =
        catch_up-Caught name log counted small able catch_up_batch_size fuel 0 done rest s split h c
          enough in
      (rw end refl, refl, shows, at_end)

  -- On an in-process log that is replayable, has right counters and less than 2^63 events, and that
  -- nobody appends to meanwhile: from views and a checkpoint that show some beginning of the log, and
  -- on an in-memory bus without subscribers, an account projector starts without an error, with
  -- fuel for one turn more than there are events left, and then the view of every account shows its
  -- fold. Events that continue the log, replayable and below 2^63 with it, reach the projector when they
  -- are published on the bus afterwards: no error is reported, and every account's view shows the fold
  -- of the longer log.
  pub start-Mirrors :
      (fuel : ℕ) (done rest later : List Event) (s : ReadModels)
      → log.events ≡ done ++ rest
      → Mirrors done s
      → checkpoint_of name (account_applier read_models) s ≡ int64 (length done)
      → length rest < fuel
      → length log.events + length later < 2 ^ 63
      → Replayable (log.events ++ later)
      → Numbered (λ e. e.global_seq) (length log.events) later
      → ((started fuel s).0 ≡ some (ok tt))
        × Mirrors log.events (started fuel s).1.1
        × ((delivered fuel s later).0 ≡ ok tt)
        × Mirrors (log.events ++ later) (delivered fuel s later).1
  start-Mirrors fuel done rest later s split h c enough room able' num =
      let (ended, joined, shows, at_end) = start_ends fuel done rest s split h c enough in
      let (fine, more, at_last) =
        apply_batch-Mirrors name log.events later (started fuel s).1.1 0 room able' shows at_end
          num in
      let live : delivered fuel s later
          ≡ (ok tt, (apply_batch (accounts_projector name) later 0 (started fuel s).1.1).1) =
        ap (λ b. publish_in (λ handlers. handlers) b later (started fuel s).1.1) joined
        ∙ once-batch name later 0 (started fuel s).1.1 fine in
      (ended, shows, ap (λ x. x.0) live, rw live more)
