-- ===== src/Projections/Showing.antt =====
-- Views that follow a log (internal/projections/projector.go), whatever they show of it.
use mathlib.Core.List.{append-nil, append_assoc}
use streamledger.Prelude.{
  ℕ, suc, ◌+◌, ◌<◌, ◌^◌, ◌≡◌, refl, sym, ap, Bool, List, [], ◌∷◌, ◌++◌, String, arith,
  if◌then◌else◌, length, length-append, ◌<ℤ◌, string_eq, insert, lookup, ℤ, Map,
}
use streamledger.Int64.{int64, int64-pos, wrap64}
use streamledger.Outcome.{ok}
use streamledger.EventStore.{Event}
use streamledger.EventStore.Numbering.{Numbered}
use streamledger.Projections.Memory.{ReadModels, new}
use streamledger.Projections.Projector.{
  EventApplier, Projector, apply_event, apply_relevant, apply_batch,
}
use streamledger.Projections.Redelivery.{
  projector, checkpoint_of, KeepsCheckpoints, AtLeastOnce, relevant-checkpoints,
  checkpoint-apply_event, deliver_again, apply_event-new, set_checkpoint-moves, apply_batch-ok,
}

-- What the views of an applier show of the logs that can be replayed.
pub record Shown (name : String) (applier : EventApplier ReadModels) : Type 1 where
  pub Mirrors : List Event → ReadModels → Type 0
  pub Replayable : List Event → Type 0
  pub prefix : (xs ys : List Event) → Replayable (xs ++ ys) → Replayable xs
  -- the next event, relevant or not, is applied and shown
  pub relevant :
      (done : List Event) (e : Event) (s : ReadModels)
      → Replayable (done ++ e ∷ [])
      → Mirrors done s
      → (hit : Bool) × ((apply_relevant (projector name applier) e s).0 ≡ ok hit)
        × Mirrors (done ++ e ∷ []) (apply_relevant (projector name applier) e s).1
  -- the checkpoints are not shown
  pub beside :
      (log : List Event) (s : ReadModels) (checkpoints : Map String ℤ)
      → Mirrors log s
      → Mirrors log (record s { checkpoints = checkpoints })
  pub fresh : Mirrors [] new

module _ (name : String) (applier : EventApplier ReadModels) (keeps : KeepsCheckpoints name applier)
    (shown : Shown name applier) where
  abbrev showing_projector : Projector ReadModels
  showing_projector = projector name applier

  -- The next event of a replayable log is applied, becomes the checkpoint, and is shown.
  apply_event-shows :
      (done : List Event) (e : Event) (s : ReadModels)
      → suc (length done) < 2 ^ 63
      → shown.Replayable (done ++ e ∷ [])
      → shown.Mirrors done s
      → checkpoint_of name applier s ≡ int64 (length done)
      → e.global_seq ≡ int64 (suc (length done))
      → (hit : Bool) × ((apply_event showing_projector e s).0 ≡ ok hit)
        × shown.Mirrors (done ++ e ∷ []) (apply_event showing_projector e s).1
  apply_event-shows done e s small able h c g =
      let new : checkpoint_of name applier s <ℤ e.global_seq =
        rw (c, g, int64-pos (length done) (omega arith), int64-pos (suc (length done)) small)
          (omega arith) in
      let step = apply_event-new name applier e s new in
      let u = (apply_relevant showing_projector e s).1 in
      let kept : checkpoint_of name applier u <ℤ e.global_seq =
        rw (relevant-checkpoints name applier keeps e s) new in
      let moved = set_checkpoint-moves name applier e.global_seq u kept in
      let (hit, q, m) = shown.relevant done e s able h in
      let whole : apply_event showing_projector e s
          ≡ (ok hit, record u { checkpoints = insert name e.global_seq u.checkpoints }) =
        rw (step, q, moved) in
      (hit, ap (λ x. x.0) whole, rw whole (shown.beside (done ++ e ∷ []) u _ m))

  -- A replayable log, delivered once and in order, is applied to the end and shown.
  pub apply_batch-shows :
      (done log : List Event) (s : ReadModels) (applied : ℕ)
      → length done + length log < 2 ^ 63
      → shown.Replayable (done ++ log)
      → shown.Mirrors done s
      → checkpoint_of name applier s ≡ int64 (length done)
      → Numbered (λ e. e.global_seq) (length done) log
      → ((apply_batch showing_projector log applied s).0.1 ≡ ok tt)
        × shown.Mirrors (done ++ log) (apply_batch showing_projector log applied s).1
        × (checkpoint_of name applier (apply_batch showing_projector log applied s).1
            ≡ int64 (length (done ++ log)))
  unfolding apply_batch
  apply_batch-shows done [] s applied small able h c num =
      (refl, rw (append-nil done) h, rw (append-nil done) c)
  apply_batch-shows done (e ∷ log) s applied small able h c num =
      let all : done ++ e ∷ log ≡ (done ++ e ∷ []) ++ log = sym (append_assoc done (e ∷ []) log) in
      let able' : shown.Replayable ((done ++ e ∷ []) ++ log) = rw all at able in
      let able₁ = shown.prefix (done ++ e ∷ []) log able' in
      let (hit, q, m) = apply_event-shows done e s (omega arith) able₁ h c num.0 in
      let longer : length (done ++ e ∷ []) ≡ suc (length done) =
        omega (arith, length-append done (e ∷ [])) in
      let moved =
        checkpoint-apply_event name applier keeps e s (length done) (omega arith) c num.0 q in
      let rest =
        apply_batch-shows (done ++ e ∷ []) log (apply_event showing_projector e s).1
          (if hit then suc applied else applied) (rw longer (omega arith)) able' m (rw longer moved)
          (rw longer num.1) in
      rw (apply_batch-ok name applier e log applied s q, all) rest

  -- A log that is delivered at least once and in order to empty views is shown.
  pub follow_log :
      (log deliveries : List Event)
      → Numbered (λ e. e.global_seq) 0 log
      → length log < 2 ^ 63
      → shown.Replayable log
      → AtLeastOnce 0 log deliveries
      → ((apply_batch showing_projector deliveries 0 new).0.1 ≡ ok tt)
        × shown.Mirrors log (apply_batch showing_projector deliveries 0 new).1
  unfolding lookup int64 wrap64
  follow_log log deliveries num small able d =
      let once = apply_batch-shows [] log new 0 (omega arith) able shown.fresh refl num in
      rw (deliver_again name applier keeps 0 log deliveries 0 new d num (omega arith) refl)
        (once.0, once.1)
