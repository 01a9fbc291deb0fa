-- ===== src/Projections/Overtaken.antt =====
-- Events that reach a projector (internal/projections/projector.go) after a later one.
use streamledger.Prelude.{◌≡◌, inl, inr, Bool, false, String, ◌<ℤ◌, ◌≤ℤ◌, string_eq}
use streamledger.Outcome.{ok, err, Outcome-cases}
use streamledger.EventStore.{Event}
use streamledger.Projections.Memory.{ReadModels}
use streamledger.Projections.Projector.{EventApplier, apply_event, apply_relevant}
use streamledger.Projections.Redelivery.{
  projector, checkpoint_of, KeepsCheckpoints, apply_event-old, apply_event-new,
  relevant-checkpoints, set_checkpoint-moves, checkpoint-inserted,
}

module _ (name : String) (applier : EventApplier ReadModels)
    (keeps : KeepsCheckpoints name applier) where
  -- A processed event is the checkpoint.
  checkpoint-processed :
      (e : Event) (s : ReadModels) {hit : Bool}
      → checkpoint_of name applier s <ℤ e.global_seq
      → (apply_event (projector name applier) e s).0 ≡ ok hit
      → checkpoint_of name applier (apply_event (projector name applier) e s).1 ≡ e.global_seq
  checkpoint-processed e s new h =
      let step = apply_event-new name applier e s new in
      let u = (apply_relevant (projector name applier) e s).1 in
      let kept : checkpoint_of name applier u <ℤ e.global_seq =
        rw (relevant-checkpoints name applier keeps e s) new in
      elim (Outcome-cases (apply_relevant (projector name applier) e s).0) [
        | inl (b, q) ↦
            rw (step, q, set_checkpoint-moves name applier e.global_seq u kept)
              (checkpoint-inserted name applier e.global_seq u)
        | inr (x, q) ↦ let bad : err x ≡ ok _ = rw (step, q) at h in cc
      ]

  -- Once an event beyond the checkpoint was processed, relevant or not, an event with a smaller number
  -- is reported as not applied and changes nothing, whether or not it was ever applied before.
  pub overtaken_ignored :
      (e d : Event) (s : ReadModels) {hit : Bool}
      → checkpoint_of name applier s <ℤ e.global_seq
      → (apply_event (projector name applier) e s).0 ≡ ok hit
      → d.global_seq ≤ℤ e.global_seq
      → apply_event (projector name applier) d (apply_event (projector name applier) e s).1
        ≡ (ok false, (apply_event (projector name applier) e s).1)
  overtaken_ignored e d s new h le =
      let now = checkpoint-processed e s new h in
      apply_event-old name applier d (apply_event (projector name applier) e s).1 (rw now le)
