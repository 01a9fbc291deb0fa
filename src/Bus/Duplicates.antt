-- ===== src/Bus/Duplicates.antt =====
-- A publisher that delivers every batch several times (internal/bus/duplicator.go), and a projector
-- behind the in-memory bus.
use streamledger.Prelude.{
  ℕ, zero, suc, ◌+◌, ◌≤◌, ◌<◌, ◌^◌, ◌≡◌, ◌≢◌, refl, sym, ap, ◌∙◌, inl, inr, Bool, List, [], ◌∷◌,
  String, arith, length, ℤ, pos_part, ◌≤ℤ◌,
}
use streamledger.Int64.{int64, int64-pos}
use streamledger.Outcome.{Error, ok, err, Outcome-cases}
use streamledger.EventStore.{Event}
use streamledger.EventStore.Numbering.{Numbered}
use streamledger.Action.{◌>>=◌, lift}
use streamledger.Projections.Memory.{ReadModels}
use streamledger.Projections.Projector.{EventApplier, apply_event}
use streamledger.Projections.Redelivery.{
  projector, checkpoint_of, KeepsCheckpoints, apply_event-old, checkpoint-apply_event,
}
use streamledger.Bus.{
  Handler, Publisher, MemoryBus, hand_out, hand_out_all, republish, duplicating_publish, new_bus,
  subscribe, publish_in,
}

err≢ok : {A : Type 0} {x : Error} {a : A} → err x ≢ ok a
err≢ok h = cc

module _ (name : String) (applier : EventApplier ReadModels) where
  -- A subscriber that hands each message to a projector.
  abbrev pub projecting : Handler ReadModels
  projecting msg = apply_event (projector name applier) msg.event >>= λ _. lift (ok tt)

  -- A bus with that subscriber only.
  abbrev pub projecting_bus : MemoryBus ReadModels
  projecting_bus = (subscribe projecting new_bus).1

  abbrev pub publish_once : Publisher ReadModels
  publish_once = publish_in (λ handlers. handlers) projecting_bus

  pub once-nil : (s : ReadModels) → publish_once [] s ≡ (ok tt, s)
  unfolding publish_in subscribe hand_out_all
  once-nil s = refl

  pub once-ok :
      (e : Event) (events : List Event) (s : ReadModels) {hit : Bool}
      → (apply_event (projector name applier) e s).0 ≡ ok hit
      → publish_once (e ∷ events) s
        ≡ publish_once events (apply_event (projector name applier) e s).1
  unfolding publish_in subscribe hand_out_all hand_out
  once-ok e events s q = rw q

  once-err :
      (e : Event) (events : List Event) (s : ReadModels) {x : Error}
      → (apply_event (projector name applier) e s).0 ≡ err x
      → (publish_once (e ∷ events) s).0 ≡ err x
  unfolding publish_in subscribe hand_out_all hand_out
  once-err e events s q = rw q

  -- A batch at or below the checkpoint is passed over.
  once-old :
      (n m : ℕ) (events : List Event) (s : ReadModels)
      → Numbered (λ e. e.global_seq) n events
      → n + length events ≤ m
      → m < 2 ^ 63
      → checkpoint_of name applier s ≡ int64 m
      → publish_once events s ≡ (ok tt, s)
  once-old n m [] s num le small c = once-nil s
  once-old n m (e ∷ events) s num le small c =
      let old : e.global_seq ≤ℤ checkpoint_of name applier s =
        rw (c, num.0, int64-pos m small, int64-pos (suc n) (omega arith)) (omega arith) in
      let passed = apply_event-old name applier e s old in
      rw (once-ok e events s (ap (λ x. x.0) passed), ap (λ x. x.1) passed)
        (once-old (suc n) m events s num.1 (omega arith) small c)

  module _ (keeps : KeepsCheckpoints name applier) where
    -- A batch that is published to the end takes the checkpoint to its end.
    once-checkpoint :
        (n : ℕ) (events : List Event) (s : ReadModels)
        → Numbered (λ e. e.global_seq) n events
        → n + length events < 2 ^ 63
        → checkpoint_of name applier s ≡ int64 n
        → (publish_once events s).0 ≡ ok tt
        → checkpoint_of name applier (publish_once events s).1 ≡ int64 (n + length events)
    once-checkpoint n [] s num small c done =
        let p : n + 0 ≡ n = omega arith in rw (once-nil s, p) c
    once-checkpoint n (e ∷ events) s num small c done =
        elim (Outcome-cases (apply_event (projector name applier) e s).0) [
          | inr (x, q) ↦
              let bad : err x ≡ ok tt = sym (once-err e events s q) ∙ done in absurd (err≢ok bad)
          | inl (hit, q) ↦
              let after = checkpoint-apply_event name applier keeps e s n (omega arith) c num.0 q in
              let next = once-ok e events s q in
              let p : n + suc (length events) ≡ suc n + length events = omega arith in
              rw (next, p)
                (once-checkpoint (suc n) events (apply_event (projector name applier) e s).1 num.1
                  (omega arith) after (rw next at done))
        ]

  republish-idle :
      (n : ℕ) (events : List Event) (s : ReadModels)
      → publish_once events s ≡ (ok tt, s)
      → republish publish_once n events s ≡ (ok tt, s)
  unfolding republish
  republish-idle zero events s h = refl
  republish-idle (suc n) events s h = rw h (republish-idle n events s h)

  -- The next batch of the log, published through a publisher that delivers it any number of extra
  -- times to a projector that subscribes to an in-memory bus: when one delivery is handled without
  -- an error, all of them are, and the views are those of one delivery. (The applier leaves the
  -- checkpoints alone, and the log stays below 2^63 events.)
  pub duplicates_absorbed :
      KeepsCheckpoints name applier
      → (extra : ℤ) (n : ℕ) (events : List Event) (s : ReadModels)
      → Numbered (λ e. e.global_seq) n events
      → n + length events < 2 ^ 63
      → checkpoint_of name applier s ≡ int64 n
      → (publish_once events s).0 ≡ ok tt
      → duplicating_publish publish_once extra events s ≡ (ok tt, (publish_once events s).1)
  unfolding duplicating_publish
  duplicates_absorbed keeps extra n events s num small c done =
      let idle =
        once-old n (n + length events) events (publish_once events s).1 num (omega arith) small
          (once-checkpoint keeps n events s num small c done) in
      rw done (republish-idle (pos_part extra) events (publish_once events s).1 idle)
