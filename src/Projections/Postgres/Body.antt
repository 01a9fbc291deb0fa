-- ===== src/Projections/Postgres/Body.antt =====
-- The body of a projector's unit of work (internal/projections/projector.go) inside a transaction.
use streamledger.Prelude.{
  ◌≡◌, inl, inr, refl, true, false, Bool-cases, String, arith, if◌then◌else◌, pos, leb_ℤ, ◌<ℤ◌,
  lookup_or, string_eq,
}
use streamledger.Outcome.{ok}
use streamledger.Action.{lift, ◌>>=◌}
use streamledger.EventStore.{Time, Event}
use streamledger.Projections.Memory
use streamledger.Projections.Memory.{ReadModels}
use streamledger.Projections.Projector.{
  EventApplier, Projector, account_applier, inventory_applier, apply_relevant, apply_body,
}
use streamledger.Projections.Redelivery.{projector, KeepsCheckpoints, relevant-checkpoints}
use streamledger.Projections.Postgres.{
  Database, Session, read_models, set_checkpoint, get_checkpoint,
}
use streamledger.Projections.Postgres.Tables.{Serves}
use streamledger.Projections.Postgres.Calls.{Reflects, shown, get_checkpoint_ok}
use streamledger.Projections.Postgres.Follows.{
  InTx, FollowsAt, bind-FollowsAt, lift-FollowsAt, set_checkpoint-FollowsAt,
  account_apply-FollowsAt, inventory_apply-FollowsAt,
}

module _ {D T : Type 0} (db : Database D T) (stored : Time → Time) (p : Serves stored db) where
  -- An applier on the tables and the same on the views.
  pub record Alike (ap : EventApplier (Session D T)) (av : EventApplier ReadModels) : Type 0 where
    pub relevant : (e : Event) → ap.relevant e ≡ av.relevant e
    pub follows :
        (e : Event) (s : Session D T) (v : ReadModels)
        → stored e.created_at ≡ e.created_at
        → InTx db stored p s
        → Reflects (shown db stored p s) v
        → FollowsAt db stored p s (ap.apply e s) (av.apply e v)

  pub accounts-Alike : Alike (account_applier (read_models db)) (account_applier Memory.read_models)
  accounts-Alike = record {
    relevant = λ e. refl;
    follows = λ e s v whole t r. account_apply-FollowsAt db stored p s v t r e whole;
  }

  pub inventory-Alike :
      Alike (inventory_applier (read_models db)) (inventory_applier Memory.read_models)
  inventory-Alike = record {
    relevant = λ e. refl;
    follows = λ e s v whole t r. inventory_apply-FollowsAt db stored p s v t r e whole;
  }

  module _ (name : String) {ap : EventApplier (Session D T)} {av : EventApplier ReadModels}
      (alike : Alike ap av) where
    abbrev pub tables_projector : Projector (Session D T)
    tables_projector = record { name = name; store = read_models db; applier = ap }

    relevant-FollowsAt :
        (e : Event) (s : Session D T) (v : ReadModels)
        → stored e.created_at ≡ e.created_at
        → InTx db stored p s
        → Reflects (shown db stored p s) v
        → FollowsAt db stored p s
            (apply_relevant tables_projector e s)
            (apply_relevant (projector name av) e v)
    unfolding apply_relevant
    relevant-FollowsAt e s v whole t r = elim (Bool-cases (av.relevant e)) [
      | inr other ↦
          rw (alike.relevant e, other)
            (lift-FollowsAt db stored p (ok false) (ok false) s v t r (λ _ q. q))
      | inl hit ↦
          rw (alike.relevant e, hit)
            (bind-FollowsAt db stored p (ap.apply e) (av.apply e) (λ _. lift (ok true))
              (λ _. lift (ok true)) s v (alike.follows e s v whole t r)
              (λ a q q'.
                let step = alike.follows e s v whole t r in
                lift-FollowsAt db stored p (ok true) (ok true) _ _ step.tx_kept (step.reflected q)
                  (λ _ q. q)))
    ]

    checkpoint-FollowsAt :
        (s : Session D T) (v : ReadModels)
        → InTx db stored p s
        → Reflects (shown db stored p s) v
        → FollowsAt db stored p s (get_checkpoint db name s, s) (Memory.get_checkpoint name v, v)
    checkpoint-FollowsAt s v t r =
        lift-FollowsAt db stored p (get_checkpoint db name s) (Memory.get_checkpoint name v) s v t r
          (λ _ q. get_checkpoint_ok db stored p s v r name q)

    -- The body of the unit of work of `ApplyEvent`.
    pub apply_body-FollowsAt :
        (e : Event) (s : Session D T) (v : ReadModels)
        → stored e.created_at ≡ e.created_at
        → KeepsCheckpoints name av
        → InTx db stored p s
        → Reflects (shown db stored p s) v
        → FollowsAt db stored p s
            (apply_body tables_projector e s)
            (apply_body (projector name av) e v)
    unfolding apply_body Memory.get_checkpoint
    apply_body-FollowsAt e s v whole keeps t r =
        bind-FollowsAt db stored p (λ s. (get_checkpoint db name s, s))
          (λ v. (Memory.get_checkpoint name v, v))
          (λ c.
            if leb_ℤ e.global_seq c
            then lift (ok false)
            else (apply_relevant tables_projector e >>= λ hit.
                set_checkpoint db name e.global_seq >>= λ _. lift (ok hit)))
          (λ c.
            if leb_ℤ e.global_seq c
            then lift (ok false)
            else (apply_relevant (projector name av) e >>= λ hit.
                Memory.set_checkpoint name e.global_seq >>= λ _. lift (ok hit)))
          s v (checkpoint-FollowsAt s v t r)
          (λ c q q'. elim (Bool-cases (leb_ℤ e.global_seq c)) [
            | inl old ↦ rw old (lift-FollowsAt db stored p (ok false) (ok false) s v t r (λ _ q. q))
            | inr new ↦
                let forward : lookup_or (pos 0) name v.checkpoints <ℤ e.global_seq = ground arith in
                let step = relevant-FollowsAt e s v whole t r in
                rw new (
                  bind-FollowsAt db stored p (apply_relevant tables_projector e)
                    (apply_relevant (projector name av) e) _ _ s v step
                    (λ hit q q'.
                      let s' = (apply_relevant tables_projector e s).1 in
                      let v' = (apply_relevant (projector name av) e v).1 in
                      let forward' : lookup_or (pos 0) name v'.checkpoints <ℤ e.global_seq =
                        rw (relevant-checkpoints name av keeps e v) forward in
                      let moved =
                        set_checkpoint-FollowsAt db stored p s' v' step.tx_kept (step.reflected q)
                          name e.global_seq forward' in
                      bind-FollowsAt db stored p (set_checkpoint db name e.global_seq)
                        (Memory.set_checkpoint name e.global_seq) (λ _. lift (ok hit))
                        (λ _. lift (ok hit)) s' v' moved
                        (λ _ q q'.
                          lift-FollowsAt db stored p (ok hit) (ok hit) _ _ moved.tx_kept
                            (moved.reflected q) (λ _ q. q))))
          ])
