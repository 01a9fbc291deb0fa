-- ===== src/Projections/Postgres/Closing.antt =====
-- How a unit of work ends (`WithTx` of internal/projections/postgres/store.go).
use streamledger.Prelude.{◌≡◌, ◌⊎◌, inl, inr, refl, ap, Bool, none, some}
use streamledger.Outcome.{Error, Outcome, ok, err, Outcome-cases}
use streamledger.Action.{Action}
use streamledger.EventStore.{Time}
use streamledger.Projections.Memory.{ReadModels}
use streamledger.Projections.Postgres.{Database, Session, worked_in, finish_tx, with_begun}
use streamledger.Projections.Postgres.Tables.{Serves}
use streamledger.Projections.Postgres.Calls.{Reflects, shown}
use streamledger.Projections.Postgres.Follows.{FollowsAt}

module _ {D T : Type 0} (db : Database D T) (stored : Time → Time) (p : Serves stored db) where
  -- What a step left behind, as `WithTx` ends it. Where an error is reported, either the database is as
  -- it was, or COMMIT has reported the error and has taken place.
  abbrev pub Closed : D → Outcome Bool → T → Outcome Bool × D → Type 0
  Closed pool r t (err x, pool') =
      (pool' ≡ pool)
      ⊎ ((hit : Bool) × (y : Error) × ((db.commit t pool).0 ≡ err y)
          × (r ≡ ok hit)
          × (p.stored pool' ≡ p.seen t))
  Closed pool r t (ok hit, pool') = (r ≡ ok hit) × (p.stored pool' ≡ p.seen t)

  finish_tx_lem : (r : Outcome Bool) (t : T) (pool : D) → Closed pool r t (finish_tx db r t pool)
  unfolding finish_tx
  finish_tx_lem (err x) t pool = inl (p.rolls_back t pool)
  finish_tx_lem (ok hit) t pool = elim (Outcome-cases (db.commit t pool).0) [
    | inl (u, q) ↦ rw q (refl, p.commits t pool q)
    | inr (x, q) ↦ elim (p.commit_fails t pool q) [
      | inl back ↦ rw q (inl back)
      | inr there ↦ rw q (inr (hit, x, q, refl, there))
    ]
  ]

  -- How a unit of work may end, given the state of the views before and the unit's work on them.
  abbrev pub Ended : Session D T → Outcome Bool × ReadModels → Outcome Bool × Session D T → Type 0
  Ended s y (err x, s') =
      (s' ≡ s)
      ⊎ ((hit : Bool) × (t : T) × (reason : Error) × ((db.commit t s.pool).0 ≡ err reason)
          × (s'.tx ≡ none)
          × (y.0 ≡ ok hit)
          × Reflects (p.stored s'.pool) y.1)
  Ended s y (ok hit, s') = (s'.tx ≡ none) × (y.0 ≡ ok hit) × Reflects (p.stored s'.pool) y.1

  Closed-Ended :
      (s s₀ s₁ : Session D T) (r : Outcome Bool) (y : Outcome Bool × ReadModels) (t : T)
      (x : Outcome Bool × D)
      → s.tx ≡ none
      → s₁.pool ≡ s.pool
      → s₁.tx ≡ some t
      → FollowsAt db stored p s₀ (r, s₁) y
      → Closed s.pool r t x
      → Ended s y (x.0, record { pool = x.1; tx = s.tx })
  Closed-Ended s s₀ s₁ r y t (err e, pool') idle kept in_tx f (inl same) =
      inl (ap (λ d. record { pool = d; tx = s.tx }) same)
  Closed-Ended s s₀ s₁ r y t (err e, pool') idle kept in_tx f
        (inr (hit, reason, broke, same, there)) =
      let seen : shown db stored p s₁ ≡ p.seen t = rw in_tx refl in
      inr (hit, t, reason, broke, idle, f.same_result same, rw (there, ← seen) (f.reflected same))
  Closed-Ended s s₀ s₁ r y t (ok hit, pool') idle kept in_tx f (same, there) =
      let seen : shown db stored p s₁ ≡ p.seen t = rw in_tx refl in
      (idle, f.same_result same, rw (there, ← seen) (f.reflected same))

  pub with_begun-Ended :
      (fn : Action (Session D T) Bool) (s : Session D T) (t : T) (y : Outcome Bool × ReadModels)
      → s.tx ≡ none
      → FollowsAt db stored p
          (record { pool = s.pool; tx = some t })
          (fn (record { pool = s.pool; tx = some t }))
          y
      → Ended s y (with_begun db t fn s)
  unfolding with_begun
  with_begun-Ended fn s t y idle f =
      let start : Session D T = record { pool = s.pool; tx = some t } in
      let r = (fn start).0 in
      let s₁ = (fn start).1 in
      let t' = worked_in db t s₁.tx in
      let in_tx : s₁.tx ≡ some t' = let (t₁, q) = f.tx_kept in rw q refl in
      let closed : Closed s.pool r t' (finish_tx db r t' s₁.pool) =
        rw f.pool_kept (finish_tx_lem r t' s.pool) in
      Closed-Ended s start s₁ r y t' (finish_tx db r t' s₁.pool) idle f.pool_kept in_tx f closed
