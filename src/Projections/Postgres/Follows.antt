-- ===== src/Projections/Postgres/Follows.antt =====
-- The work of a projector (internal/projections/projector.go) inside a transaction of
-- internal/projections/postgres/store.go, against its work on the in-process views.
use streamledger.Prelude.{
  ◌≡◌, inl, inr, refl, ◌∙◌, Option, none, some, String, arith, ℤ, pos, ◌<ℤ◌, lookup_or, string_eq,
}
use streamledger.Outcome.{Outcome, ok, Outcome-cases}
use streamledger.Action.{Action, lift, ◌>>=◌}
use streamledger.EventStore.{Time, Event}
use streamledger.Projections.{AccountView, InventoryView}
use streamledger.Projections.Memory
use streamledger.Projections.Memory.{ReadModels}
use streamledger.Projections.Appliers.{
  account_apply, account_change, inventory_apply, inventory_change,
}
use streamledger.Projections.Postgres.{
  Statement, Database, Session, exec_in, exec, read_models, upsert_account, upsert_inventory,
  set_checkpoint, get_account, get_inventory,
}
use streamledger.Projections.Postgres.Tables.{Serves}
use streamledger.Projections.Postgres.Calls.{
  Reflects, shown, get_account_ok, get_inventory_ok, upsert_account_ok, upsert_inventory_ok,
  set_checkpoint_ok,
}

module _ {D T : Type 0} (db : Database D T) (stored : Time → Time) (p : Serves stored db) where
  abbrev pub InTx : Session D T → Type 0
  InTx s = (t : T) × (s.tx ≡ some t)

  -- A step in a transaction stays in it, and when it succeeds the step on the views does, with the
  -- same result and a state that the tables reflect.
  pub record FollowsAt {A : Type 0} (s : Session D T) (x : Outcome A × Session D T)
      (y : Outcome A × ReadModels) : Type 0 where
    pub pool_kept : x.1.pool ≡ s.pool
    pub tx_kept : InTx x.1
    pub same_result : {a : A} → x.0 ≡ ok a → y.0 ≡ ok a
    pub reflected : {a : A} → x.0 ≡ ok a → Reflects (shown db stored p x.1) y.1

  module _ {A B : Type 0} (m : Action (Session D T) A) (m' : Action ReadModels A)
      (f : A → Action (Session D T) B) (f' : A → Action ReadModels B) (s : Session D T)
      (v : ReadModels) where
    pub bind-FollowsAt :
        FollowsAt s (m s) (m' v)
        → ((a : A)
            → (m s).0 ≡ ok a
            → (m' v).0 ≡ ok a
            → FollowsAt (m s).1 (f a (m s).1) (f' a (m' v).1))
        → FollowsAt s ((m >>= f) s) ((m' >>= f') v)
    bind-FollowsAt h k = elim (Outcome-cases (m s).0) [
      | inr (x, q) ↦ record {
        pool_kept = rw q h.pool_kept;
        tx_kept = rw q h.tx_kept;
        same_result = λ e. absurd (ground arith);
        reflected = λ e. absurd (ground arith);
      }
      | inl (a, q) ↦
          let q' = h.same_result q in
          let rest = k a q q' in
          record {
            pool_kept = rw q (rest.pool_kept ∙ h.pool_kept);
            tx_kept = rw q rest.tx_kept;
            same_result = λ e. rw q' (rest.same_result (rw q at e));
            reflected = λ e. rw (q, q') (rest.reflected (rw q at e));
          }
    ]

  pub lift-FollowsAt :
      {A : Type 0} (r r' : Outcome A) (s : Session D T) (v : ReadModels)
      → InTx s
      → Reflects (shown db stored p s) v
      → ((a : A) → r ≡ ok a → r' ≡ ok a)
      → FollowsAt s (lift r s) (lift r' v)
  lift-FollowsAt r r' s v t h same = record {
    pool_kept = refl;
    tx_kept = t;
    same_result = λ e. same _ e;
    reflected = λ e. h;
  }

  exec_in-tx :
      (q : Statement) (pool : D) (tx : Option T) (t : T)
      → tx ≡ some t
      → ((exec_in db q pool tx).1.pool ≡ pool) × InTx (exec_in db q pool tx).1
  exec_in-tx q pool none t h = absurd (ground arith)
  exec_in-tx q pool (some t) u h = (refl, ((db.run q t).1, refl))

  exec-tx :
      (what : String) (q : Statement) (s : Session D T)
      → InTx s
      → ((exec db what q s).1.pool ≡ s.pool) × InTx (exec db what q s).1
  unfolding exec
  exec-tx what q s (t, h) = exec_in-tx q s.pool s.tx t h

  module _ (s : Session D T) (v : ReadModels) (t : InTx s)
      (r : Reflects (shown db stored p s) v) where
    upsert_account-FollowsAt :
        (view : AccountView)
        → stored view.updated_at ≡ view.updated_at
        → FollowsAt s (upsert_account db view s) (Memory.upsert_account view v)
    unfolding Memory.upsert_account
    upsert_account-FollowsAt view whole = record {
      pool_kept = unfold upsert_account in (exec-tx "upsert account" _ s t).0;
      tx_kept = unfold upsert_account in (exec-tx "upsert account" _ s t).1;
      same_result = λ e. refl;
      reflected = λ e. upsert_account_ok db stored p s v r view whole e;
    }

    upsert_inventory-FollowsAt :
        (view : InventoryView)
        → stored view.updated_at ≡ view.updated_at
        → FollowsAt s (upsert_inventory db view s) (Memory.upsert_inventory view v)
    unfolding Memory.upsert_inventory
    upsert_inventory-FollowsAt view whole = record {
      pool_kept = unfold upsert_inventory in (exec-tx "upsert inventory" _ s t).0;
      tx_kept = unfold upsert_inventory in (exec-tx "upsert inventory" _ s t).1;
      same_result = λ e. refl;
      reflected = λ e. upsert_inventory_ok db stored p s v r view whole e;
    }

    pub set_checkpoint-FollowsAt :
        (name : String) (n : ℤ)
        → lookup_or (pos 0) name v.checkpoints <ℤ n
        → FollowsAt s (set_checkpoint db name n s) (Memory.set_checkpoint name n v)
    set_checkpoint-FollowsAt name n forward = record {
      pool_kept = unfold set_checkpoint in (exec-tx "set checkpoint" _ s t).0;
      tx_kept = unfold set_checkpoint in (exec-tx "set checkpoint" _ s t).1;
      same_result = λ e. unfold Memory.set_checkpoint in ground arith;
      reflected = λ e. set_checkpoint_ok db stored p s v r name n forward e;
    }

    pub account_apply-FollowsAt :
        (e : Event)
        → stored e.created_at ≡ e.created_at
        → FollowsAt s (account_apply (read_models db) e s) (account_apply Memory.read_models e v)
    unfolding account_apply
    account_apply-FollowsAt e whole =
        let read =
          lift-FollowsAt _ (Memory.get_account e.aggregate_id v) s v t r
            (λ _ q. get_account_ok db stored p s v r e.aggregate_id q) in
        bind-FollowsAt (lift (get_account db e.aggregate_id s))
          (lift (Memory.get_account e.aggregate_id v)) _ _ s v read
          (λ found _ _.
            bind-FollowsAt
              (lift (account_change (record (found.0) { account_id = e.aggregate_id }) e))
              (lift (account_change (record (found.0) { account_id = e.aggregate_id }) e)) _ _ s v
              (lift-FollowsAt _ _ s v t r (λ _ q. q))
              (λ view _ _.
                upsert_account-FollowsAt
                  (record view { version = e.version; updated_at = e.created_at }) whole))

    pub inventory_apply-FollowsAt :
        (e : Event)
        → stored e.created_at ≡ e.created_at
        → FollowsAt s
            (inventory_apply (read_models db) e s)
            (inventory_apply Memory.read_models e v)
    unfolding inventory_apply
    inventory_apply-FollowsAt e whole =
        let read =
          lift-FollowsAt _ (Memory.get_inventory e.aggregate_id v) s v t r
            (λ _ q. get_inventory_ok db stored p s v r e.aggregate_id q) in
        bind-FollowsAt (lift (get_inventory db e.aggregate_id s))
          (lift (Memory.get_inventory e.aggregate_id v)) _ _ s v read
          (λ found _ _.
            bind-FollowsAt
              (lift (inventory_change (record (found.0) { item_id = e.aggregate_id }) e))
              (lift (inventory_change (record (found.0) { item_id = e.aggregate_id }) e)) _ _ s v
              (lift-FollowsAt _ _ s v t r (λ _ q. q))
              (λ view _ _.
                upsert_inventory-FollowsAt
                  (record view { version = e.version; updated_at = e.created_at }) whole))
