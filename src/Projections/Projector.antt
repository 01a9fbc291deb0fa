-- ===== src/Projections/Projector.antt =====
-- internal/projections/projector.go: a named consumer that folds each event of the log at most once.
-- The metrics that it reports through have no effect on its results, and are left out.
use streamledger.Prelude.{
  ℕ, zero, suc, Bool, true, false, Option, none, some, List, [], ◌∷◌, String, if◌then◌else◌, length,
  ℤ, pos, ltb_ℤ, leb_ℤ,
}
use streamledger.Int64.{sub64}
use streamledger.Outcome.{Outcome, ok, err}
use streamledger.EventStore.{Event}
use streamledger.Action.{Action, lift, ◌>>=◌}
use streamledger.Projections.{ReadModelStore}
use streamledger.Projections.Appliers.{
  account_relevant, account_apply, inventory_relevant, inventory_apply,
}

pub record EventApplier (S : Type 0) : Type 0 where
  pub relevant : Event → Bool
  pub apply : Event → Action S (Unit {0})

abbrev pub account_applier : {S : Type 0} → ReadModelStore S → EventApplier S
account_applier store = record { relevant = account_relevant; apply = account_apply store }

abbrev pub inventory_applier : {S : Type 0} → ReadModelStore S → EventApplier S
inventory_applier store = record { relevant = inventory_relevant; apply = inventory_apply store }

pub record Projector (S : Type 0) : Type 0 where
  pub name : String
  pub store : ReadModelStore S
  pub applier : EventApplier S

module _ {S : Type 0} (p : Projector S) where
  -- `if p.Applier.Relevant(event) { … }`: whether the event was applied.
  unfoldable pub apply_relevant : Event → Action S Bool
  apply_relevant e s =
      if p.applier.relevant e then (p.applier.apply e >>= λ _. lift (ok true)) s else (ok false, s)

  -- The body of the unit of work of `ApplyEvent`.
  unfoldable pub apply_body : Event → Action S Bool
  apply_body e s =
      ((λ s. (p.store.get_checkpoint p.name s, s)) >>= λ checkpoint.
      if leb_ℤ e.global_seq checkpoint
      then lift (ok false)
      else (apply_relevant e >>= λ applied.
          p.store.set_checkpoint p.name e.global_seq >>= λ _. lift (ok applied)))
        s

  unfoldable pub apply_event : Event → Action S Bool
  apply_event e = p.store.with_tx (apply_body e)

  -- The loop over one batch: how many events were applied, beside the error that ended it.
  unfoldable pub apply_batch : List Event → ℕ → S → (ℕ × Outcome (Unit {0})) × S
  apply_batch [] applied s = ((applied, ok tt), s)
  apply_batch (e ∷ events) applied s =
      let (r, s') = apply_event e s in
      elim r [
        | err x ↦ ((applied, err x), s')
        | ok hit ↦ apply_batch events (if hit then suc applied else applied) s'
      ]

  -- `CatchUp` on a log that nobody appends to meanwhile; `none` where the fuel has run out.
  unfoldable pub catch_up :
      (ℤ → ℤ → Outcome (List Event)) → ℤ → ℕ → ℕ → S → Option (ℕ × Outcome (Unit {0})) × S
  catch_up load_since batch_size zero applied s = (none, s)
  catch_up load_since batch_size (suc fuel) applied s = elim (p.store.get_checkpoint p.name s) [
    | err x ↦ (some (applied, err x), s)
    | ok checkpoint ↦ elim (load_since checkpoint batch_size) [
      | err x ↦ (some (applied, err x), s)
      | ok [] ↦ (some (applied, ok tt), s)
      | ok (e ∷ events) ↦
          let ((applied', r), s') = apply_batch (e ∷ events) applied s in
          elim r [
            | err x ↦ (some (applied', err x), s')
            | ok _ ↦
                let rest = catch_up load_since batch_size fuel applied' s' in
                if ltb_ℤ (pos (length (e ∷ events))) batch_size
                then (some (applied', ok tt), s')
                else rest
          ]
    ]
  ]

  unfoldable pub checkpoint : S → Outcome ℤ
  checkpoint s = p.store.get_checkpoint p.name s

  unfoldable pub lag : ℤ → Action S ℤ
  lag latest_global_seq s =
      (lift (p.store.get_checkpoint p.name s) >>= λ checkpoint.
      let behind = sub64 latest_global_seq checkpoint in
      lift (ok (if ltb_ℤ behind (pos 0) then pos 0 else behind)))
        s
