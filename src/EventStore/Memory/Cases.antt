-- ===== src/EventStore/Memory/Cases.antt =====
-- The three ways in which a call of `Append` on the in-process log ends.
use streamledger.Prelude.{
  ◌≡◌, ◌⊎◌, true, false, inl, inr, none, some, List, [], String, arith, Option-cases, string_eq,
}
use streamledger.Outcome.{Error, ok, err, Outcome-cases}
use streamledger.EventStore.{AppendEvent, Event, stream_key_eq}
use streamledger.EventStore.Memory.{MemoryStore, prior_events, validate, commit, append}

module _ (d : String) (batch : List AppendEvent) (s : MemoryStore) where
  -- the key was processed before
  abbrev pub Replays : Type 0
  Replays =
      (prior : List Event) × (prior_events d s ≡ some prior)
      × (append d batch s ≡ (ok (prior, true), s))

  -- an expected version does not match
  abbrev pub Refuses : Type 0
  Refuses =
      (e : Error) × (prior_events d s ≡ none)
      × (validate s.versions [] batch ≡ err e)
      × (append d batch s ≡ (err e, s))

  -- the batch is written
  abbrev pub Writes : Type 0
  Writes =
      (prior_events d s ≡ none)
      × (validate s.versions [] batch ≡ ok tt)
      × (append d batch s ≡ (ok ((commit d batch s).0, false), (commit d batch s).1))

  pub append-cases : Replays ⊎ Refuses ⊎ Writes
  unfolding append
  append-cases = elim (Option-cases (prior_events d s)) [
    | inl fresh ↦ elim (Outcome-cases (validate s.versions [] batch)) [
      | inl (u, e) ↦ inr (inr (fresh, e, ground arith))
      | inr (x, e) ↦ inr (inl (x, fresh, e, ground arith))
    ]
    | inr (prior, e) ↦ inl (prior, e, ground arith)
  ]
