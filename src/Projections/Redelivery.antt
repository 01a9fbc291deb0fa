-- ===== src/Projections/Redelivery.antt =====
-- Duplicate deliveries to a projector (internal/projections/projector.go).
use streamledger.Prelude.{
  ℕ, suc, ◌+◌, ◌≤◌, ◌<◌, ◌^◌, ◌≡◌, refl, inl, inr, Bool, true, false, Bool-cases, List, [], ◌∷◌,
  String, arith, beq_refl, if◌then◌else◌, length, ℤ, pos, leb_ℤ, ltb_ℤ, ◌≤ℤ◌, ◌<ℤ◌, string_eq, ◌∙◌,
  ap, insert, lookup_or, lookup-insert,
}
use streamledger.Int64.{int64, int64-pos}
use streamledger.Outcome.{Error, ok, err, Outcome-cases}
use streamledger.EventStore.{Event}
use streamledger.EventStore.Numbering.{Numbered}
use streamledger.Action.{lift, ◌>>=◌}
use streamledger.Projections.Memory.{
  ReadModels, read_models, get_checkpoint, set_checkpoint, with_tx,
}
use streamledger.Projections.Projector.{
  EventApplier, Projector, apply_event, apply_body, apply_relevant, apply_batch,
}

-- A delivery of a log, at least once and in order: each event is the next of the log, or repeats
-- one that came before. The first n events were delivered earlier.
pub data AtLeastOnce : ℕ → List Event → List Event → Type 0 where
  delivered : {n : ℕ} → AtLeastOnce n [] []
  next :
      {n : ℕ} {log deliveries : List Event} (e : Event)
      → AtLeastOnce (suc n) log deliveries
      → AtLeastOnce n (e ∷ log) (e ∷ deliveries)
  again :
      {n : ℕ} {log deliveries : List Event} (e : Event) (k : ℕ)
      → k ≤ n
      → e.global_seq ≡ int64 k
      → AtLeastOnce n log deliveries
      → AtLeastOnce n log (e ∷ deliveries)

module _ (name : String) (applier : EventApplier ReadModels) where
  abbrev pub projector : Projector ReadModels
  projector = record { name = name; store = read_models; applier = applier }

  abbrev pub checkpoint_of : ReadModels → ℤ
  checkpoint_of s = lookup_or (pos 0) name s.checkpoints

  -- The applier leaves the checkpoints alone.
  abbrev pub KeepsCheckpoints : Type 0
  KeepsCheckpoints =
      (e : Event) (s : ReadModels) → (applier.apply e s).1.checkpoints ≡ s.checkpoints

  -- An event at or below the checkpoint changes nothing, and is reported as not applied.
  pub apply_event-old :
      (e : Event) (s : ReadModels)
      → e.global_seq ≤ℤ checkpoint_of s
      → apply_event projector e s ≡ (ok false, s)
  unfolding apply_event apply_body get_checkpoint with_tx
  apply_event-old e s h = let t : leb_ℤ e.global_seq (checkpoint_of s) ≡ true = ground arith in rw t

  -- A new event is applied when it is relevant, and becomes the checkpoint unless that fails.
  pub apply_event-new :
      (e : Event) (s : ReadModels)
      → checkpoint_of s <ℤ e.global_seq
      → apply_event projector e s ≡ (
          (apply_relevant projector e >>= λ applied.
          set_checkpoint name e.global_seq >>= λ _. lift (ok applied))
            s)
  unfolding apply_event apply_body get_checkpoint with_tx
  apply_event-new e s h =
      let t : leb_ℤ e.global_seq (checkpoint_of s) ≡ false = ground arith in rw t

  pub apply_batch-ok :
      (e : Event) (events : List Event) (applied : ℕ) (s : ReadModels) {hit : Bool}
      → (apply_event projector e s).0 ≡ ok hit
      → apply_batch projector (e ∷ events) applied s
        ≡ apply_batch projector events
            (if hit then suc applied else applied)
            (apply_event projector e s).1
  unfolding apply_batch
  apply_batch-ok e events applied s q = rw (apply_batch, q)

  pub apply_batch-err :
      (e : Event) (events : List Event) (applied : ℕ) (s : ReadModels) {x : Error}
      → (apply_event projector e s).0 ≡ err x
      → apply_batch projector (e ∷ events) applied s
        ≡ ((applied, err x), (apply_event projector e s).1)
  unfolding apply_batch
  apply_batch-err e events applied s q = rw (apply_batch, q)

  pub set_checkpoint-moves :
      (g : ℤ) (s : ReadModels)
      → checkpoint_of s <ℤ g
      → set_checkpoint name g s ≡ (ok tt, record s { checkpoints = insert name g s.checkpoints })
  unfolding set_checkpoint
  set_checkpoint-moves g s h = let t : ltb_ℤ (checkpoint_of s) g ≡ true = ground arith in rw t

  pub checkpoint-inserted :
      (g : ℤ) (s : ReadModels) → lookup_or (pos 0) name (insert name g s.checkpoints) ≡ g
  checkpoint-inserted g s = ground (arith, lookup-insert name name g s.checkpoints, beq_refl name)

  module _ (keeps : KeepsCheckpoints) where
    pub relevant-checkpoints :
        (e : Event) (s : ReadModels) → (apply_relevant projector e s).1.checkpoints ≡ s.checkpoints
    unfolding apply_relevant
    relevant-checkpoints e s = elim (Bool-cases (applier.relevant e)) [
      | inr other ↦ rw other
      | inl relevant ↦ rw relevant (elim (Outcome-cases (applier.apply e s).0) [
        | inl (_, q) ↦ rw q (keeps e s)
        | inr (_, q) ↦ rw q (keeps e s)
      ])
    ]

    -- The next event of the log, once applied, is the checkpoint.
    pub checkpoint-apply_event :
        (e : Event) (s : ReadModels) (n : ℕ) {hit : Bool}
        → suc n < 2 ^ 63
        → checkpoint_of s ≡ int64 n
        → e.global_seq ≡ int64 (suc n)
        → (apply_event projector e s).0 ≡ ok hit
        → checkpoint_of (apply_event projector e s).1 ≡ int64 (suc n)
    checkpoint-apply_event e s n small c g h =
        let new : checkpoint_of s <ℤ e.global_seq =
          rw (c, g, int64-pos n (omega arith), int64-pos (suc n) small) (omega arith) in
        let step = apply_event-new e s new in
        let u = (apply_relevant projector e s).1 in
        let kept : checkpoint_of u <ℤ e.global_seq = rw (relevant-checkpoints e s) new in
        elim (Outcome-cases (apply_relevant projector e s).0) [
          | inl (b, q) ↦
              rw (step, q, set_checkpoint-moves e.global_seq u kept)
                (checkpoint-inserted e.global_seq u ∙ g)
          | inr (x, q) ↦ let bad : err x ≡ ok _ = rw (step, q) at h in cc
        ]

    -- A log that is delivered at least once and in order has the outcome, the count and the views
    -- that it has when it is delivered exactly once.
    pub deliver_again :
        (n : ℕ) (log deliveries : List Event) (applied : ℕ) (s : ReadModels)
        → AtLeastOnce n log deliveries
        → Numbered (λ e. e.global_seq) n log
        → n + length log < 2 ^ 63
        → checkpoint_of s ≡ int64 n
        → apply_batch projector deliveries applied s ≡ apply_batch projector log applied s
    deliver_again n log deliveries applied s delivered num small c = refl
    deliver_again n log deliveries applied s (next {log = log'} {deliveries = ds} e more) num small
          c =
        elim (Outcome-cases (apply_event projector e s).0) [
          | inr (x, q) ↦ rw (apply_batch-err e ds applied s q, apply_batch-err e log' applied s q)
          | inl (hit, q) ↦
              rw (apply_batch-ok e ds applied s q, apply_batch-ok e log' applied s q)
                (deliver_again (suc n) log' ds (if hit then suc applied else applied)
                  (apply_event projector e s).1 more num.1 (omega arith)
                  (checkpoint-apply_event e s n (omega arith) c num.0 q))
        ]
    deliver_again n log deliveries applied s (again {deliveries = ds} e k le g more) num small c =
        let old : e.global_seq ≤ℤ checkpoint_of s =
          rw (c, g, int64-pos n (omega arith), int64-pos k (omega arith)) (omega arith) in
        let passed = apply_event-old e s old in
        rw (apply_batch-ok e ds applied s (ap (λ x. x.0) passed), ap (λ x. x.1) passed)
          (deliver_again n log ds applied s more num small c)
