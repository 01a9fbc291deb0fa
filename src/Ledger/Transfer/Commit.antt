-- ===== src/Ledger/Transfer/Commit.antt =====
-- How `Transfer` (internal/ledger/service.go) ends, whatever the other clients do between its calls.
use streamledger.Prelude.{
  ℕ, zero, suc, ◌^◌, ◌<◌, ◌≡◌, ◌≢◌, ◌⊎◌, inl, inr, refl, ap, ◌∙◌, Bool, none, some, Bool-cases,
  true, false, List, [], ◌∷◌, ◌++◌, String, arith, length, length-append, ℤ, pos, ◌<ℤ◌, ◌≤ℤ◌, ◌==◌,
  string_eq, eq_iff,
}
use streamledger.Int64.{IsInt64, add64, sub64}
use streamledger.Outcome.{Outcome, ok, Outcome-cases}
use streamledger.EventStore.{AppendEvent, Event, Store, stream_key_eq, key_of, stream}
use streamledger.EventStore.Contract.{Lawful, Wrote}
use streamledger.Ledger.Command.{World, Others}
use streamledger.Ledger.Interleaving.{
  Continues-trans, Respects, Waits, here, next, Waits-trans, Waits-Continues,
}
use streamledger.Ledger.Account.{
  decide_withdraw-ok, decide_deposit-ok, apply_account-deposited, apply_account-withdrawn,
  fold_account-snoc,
}
use streamledger.Ledger.Events.{aggregate_type_account}
use streamledger.Ledger.State.{AccountState, fold_account}
use streamledger.Ledger.Versions.{version-fold_account}
use streamledger.Ledger.Solvency.{account_key}
use streamledger.Ledger.Service.{
  Result, Service, transfer, transfer_retry, processed, duplicate_result,
}
use streamledger.Ledger.Service.Settle.{
  Silent, settled_result, settled_store, appended, settled, settled_cases,
}
use streamledger.Ledger.Service.Unmoved.{still_there}
use streamledger.Ledger.Transfer.Legs.{stream_from, stream_to, Recorded-two, keys_differ}
use streamledger.Ledger.Service.Run.{processed-Waits}
use streamledger.Ledger.Transfer.{legs, at₁, at₂, at₃, Proceeds, attempt_cases}

module _ {S : Type 0} {ops : Store S} (laws : Lawful ops) {others : Others S}
    (r : Respects laws others) (svc : Service) (from_id to_id : String) (amount : ℤ)
    (d : String) where
  pub record Transferred (w : World S) (x : Outcome Result × World S) : Type 0 where
    pub at : World S
    pub waited : Waits others w at
    pub from : AccountState
    pub to : AccountState
    pub from_before :
        fold_account from_id (stream (account_key from_id) (laws.log at.store)) ≡ ok from
    pub to_before : fold_account to_id (stream (account_key to_id) (laws.log at.store)) ≡ ok to
    pub both_open : (from.opened ≡ true) × (to.opened ≡ true)
    pub positive : pos 0 <ℤ amount
    pub covered : amount ≤ℤ from.balance_cents
    pub out : Event
    pub back : Event
    pub grown : laws.log x.1.store ≡ laws.log at.store ++ out ∷ back ∷ []
    pub from_after :
        fold_account from_id (stream (account_key from_id) (laws.log x.1.store))
        ≡ ok
            (record from { version = out.version; balance_cents = sub64 from.balance_cents amount })
    pub to_after :
        fold_account to_id (stream (account_key to_id) (laws.log x.1.store))
        ≡ ok (record to { version = back.version; balance_cents = add64 to.balance_cents amount })
    pub reported :
        x.0 ≡ ok (record { applied = true; duplicate = false; new_version = out.version })

  abbrev pub TransferEnds : World S → Outcome Result × World S → Type 0
  TransferEnds w x = Silent others w x ⊎ Transferred w x

  TransferEnds-wait :
      {w v : World S} {x : Outcome Result × World S}
      → Waits others w v
      → TransferEnds v x
      → TransferEnds w x
  TransferEnds-wait a (inl (idle, b)) = inl (idle, Waits-trans a b)
  TransferEnds-wait a (inr c) = inr (record {
    at = c.at;
    waited = Waits-trans a c.waited;
    from = c.from;
    to = c.to;
    from_before = c.from_before;
    to_before = c.to_before;
    both_open = c.both_open;
    positive = c.positive;
    covered = c.covered;
    out = c.out;
    back = c.back;
    grown = c.grown;
    from_after = c.from_after;
    to_after = c.to_after;
    reported = c.reported;
  })

  module _ (apart : from_id ≢ to_id) (fits : IsInt64 amount) (reason : String) where
    abbrev loop : ℕ → World S → Outcome Result × World S
    loop = transfer_retry ops others svc from_id to_id amount reason d

    module _ (left : ℕ) (w : World S) (h : laws.IsValid w.store)
        (p : Proceeds ops others svc from_id to_id amount reason d left w) where
      abbrev v₁ : World S
      v₁ = at₁ ops others svc from_id to_id amount reason d left w

      abbrev v₂ : World S
      v₂ = at₂ ops others svc from_id to_id amount reason d left w

      abbrev v₃ : World S
      v₃ = at₃ ops others svc from_id to_id amount reason d left w

      valid₁ : laws.IsValid v₁.store
      valid₁ = r.stays_valid w.calls w.store h

      valid₂ : laws.IsValid v₂.store
      valid₂ = r.stays_valid _ v₁.store valid₁

      valid₃ : laws.IsValid v₃.store
      valid₃ = r.stays_valid _ v₂.store valid₂

      waited₃ : Waits others w v₃
      waited₃ = next (next (next here refl) refl) refl

      abbrev batch : List AppendEvent
      batch = legs from_id to_id p.from p.to p.taken p.given

      abbrev wrote_by : Outcome (List Event × Bool) × S
      wrote_by =
          appended laws others svc aggregate_type_account from_id d left (loop left) batch v₃ valid₃

      abbrev ended : Outcome Result × World S
      ended =
          settled laws others svc aggregate_type_account from_id d left (loop left) batch v₃ valid₃

      module _ {produced : List Event} (a : wrote_by.0 ≡ ok (produced, false))
          (short : length (laws.log v₃.store) < 2 ^ 63) where
        abbrev wrote : Wrote d batch (laws.log v₃.store) (laws.log wrote_by.1) produced
        wrote = laws.writes d batch v₃.store valid₃ a

        from_unmoved : stream (account_key from_id) (laws.log v₃.store) ≡ p.from_events
        from_unmoved =
            let read = laws.loads (account_key from_id) v₁.store valid₁ p.from_loaded in
            let version =
              version-fold_account from_id p.from_events p.from
                (rw read (laws.versioned v₁.store valid₁ (account_key from_id))) p.from_folded in
            still_there (account_key from_id) (laws.log v₁.store) (laws.log v₃.store) p.from_events
              p.from.version
              (Continues-trans _ _ _ (r.continues _ v₁.store valid₁)
                (r.continues _ v₂.store valid₂))
              read version wrote.admitted.0 short

        to_unmoved : stream (account_key to_id) (laws.log v₃.store) ≡ p.to_events
        to_unmoved =
            let read = laws.loads (account_key to_id) v₂.store valid₂ p.to_loaded in
            let version =
              version-fold_account to_id p.to_events p.to
                (rw read (laws.versioned v₂.store valid₂ (account_key to_id))) p.to_folded in
            still_there (account_key to_id) (laws.log v₂.store) (laws.log v₃.store) p.to_events
              p.to.version (r.continues _ v₂.store valid₂) read version
              (rw (keys_differ from_id to_id apart) at wrote.admitted.1.0) short

      -- The append wrote both legs.
      written :
          (produced : List Event)
          → wrote_by.0 ≡ ok (produced, false)
          → length (laws.log ended.1.store) < 2 ^ 63
          → Transferred w ended
      written produced a small =
          let facts = laws.writes d batch v₃.store valid₃ a in
          let (out, back, two, rec₁, rec₂) = Recorded-two d _ _ produced facts.recorded in
          let a' : wrote_by.0 ≡ ok (out ∷ back ∷ [], false) = rw two at a in
          let after = record v₃ { store = wrote_by.1 } in
          let stored : ended.1.store ≡ wrote_by.1 = rw a' (
            settled_store ops others svc aggregate_type_account from_id left (loop left) out
              (back ∷ []) after) in
          let grown : laws.log ended.1.store ≡ laws.log v₃.store ++ out ∷ back ∷ [] =
            rw stored (facts.grown ∙ ap (λ l. laws.log v₃.store ++ l) two) in
          let short : length (laws.log v₃.store) < 2 ^ 63 = omega (
            arith,
            length-append (laws.log v₃.store) (out ∷ back ∷ []),
            ap (length {A = Event}) grown,
          ) in
          let took = decide_withdraw-ok p.from amount reason p.taken p.withdraw_accepted in
          let gave = decide_deposit-ok p.to amount reason p.given p.deposit_accepted in
          let k₁ : key_of out ≡ account_key from_id = rec₁.stored_under in
          let k₂ : key_of back ≡ account_key to_id = rec₂.stored_under in
          let from_before : fold_account from_id (stream (account_key from_id) (laws.log v₃.store))
              ≡ ok p.from =
            rw (from_unmoved a short) p.from_folded in
          let to_before : fold_account to_id (stream (account_key to_id) (laws.log v₃.store))
              ≡ ok p.to =
            rw (to_unmoved a short) p.to_folded in
          record {
            at = v₃;
            waited = waited₃;
            from = p.from;
            to = p.to;
            from_before = from_before;
            to_before = to_before;
            both_open = (took.0, gave.0);
            positive = took.1;
            covered = took.2;
            out = out;
            back = back;
            grown = grown;
            from_after =
                rw
                  (
                    grown,
                    stream_from from_id to_id apart (laws.log v₃.store) out back k₁ k₂,
                    fold_account-snoc from_id (stream (account_key from_id) (laws.log v₃.store))
                        out,
                    from_before,
                  )
                  (apply_account-withdrawn p.from out p.taken (rw took.3 fits) rec₁.stored_type
                      rec₁.stored_payload
                    ∙ ap
                        (λ z. ok (record p.from {
                          version = out.version;
                          balance_cents = sub64 p.from.balance_cents z;
                        }))
                        took.3);
            to_after =
                rw
                  (
                    grown,
                    stream_to from_id to_id apart (laws.log v₃.store) out back k₁ k₂,
                    fold_account-snoc to_id (stream (account_key to_id) (laws.log v₃.store)) back,
                    to_before,
                  )
                  (apply_account-deposited p.to back p.given (rw gave.2 fits) rec₂.stored_type
                      rec₂.stored_payload
                    ∙ ap
                        (λ z. ok (record p.to {
                          version = back.version;
                          balance_cents = add64 p.to.balance_cents z;
                        }))
                        gave.2);
            reported = rw a' (
                settled_result ops others svc aggregate_type_account from_id left (loop left) out
                  (back ∷ []) after);
          }

      -- The end of an attempt whose append ran, given how the remaining attempts end.
      ended-Ends :
          length (laws.log ended.1.store) < 2 ^ 63
          → (length (laws.log (loop left v₃).1.store) < 2 ^ 63 → TransferEnds v₃ (loop left v₃))
          → TransferEnds w ended
      ended-Ends small again =
          elim (settled_cases laws others svc aggregate_type_account from_id d left (loop left)
            batch v₃ valid₃) [
              | inl on ↦ rw on (TransferEnds-wait waited₃ (again (rw on at small)))
              | inr (inl (idle, i, on)) ↦ rw on (inl (i, waited₃))
              | inr (inr (produced, a)) ↦ inr (written produced a small)
            ]

    -- The loop of a transfer, with any number of attempts left.
    pub loop_ends :
        (left : ℕ) (w : World S)
        → laws.IsValid w.store
        → length (laws.log (loop left w).1.store) < 2 ^ 63
        → TransferEnds w (loop left w)
    loop_ends zero w h small = inl (unfold transfer_retry in (tt, here))
    loop_ends (suc left) w h small =
        elim (attempt_cases ops others svc from_id to_id amount reason d left w) [
          | inl (x, v, e, wt) ↦ rw e (inl (tt, wt))
          | inr p ↦ rw p.goes_on (
              ended-Ends left w h p (rw p.goes_on at small)
                (loop_ends left (v₃ left w h p) (valid₃ left w h p)))
        ]

  abbrev pub transferred : World S → Outcome Result × World S
  transferred = transfer ops others svc from_id to_id amount d

  -- On a valid store, with others that keep it valid and only append, a transfer (of an int64
  -- amount, in a log that stays below 2^63 events) changes and publishes nothing and reports no new
  -- result, or the log grows by just two events, in one append: a withdrawal that the
  -- balance of the first account covers at that moment, and a deposit of the same amount to the
  -- second account, which is another one and open.
  pub transfer_commits :
      (w : World S)
      → laws.IsValid w.store
      → IsInt64 amount
      → length (laws.log (transferred w).1.store) < 2 ^ 63
      → TransferEnds w (transferred w)
  unfolding transfer
  transfer_commits w h fits small = elim (Bool-cases (from_id == to_id)) [
    | inl same ↦ rw same (inl (tt, here))
    | inr other ↦
        let apart : from_id ≢ to_id = λ p. ground (arith, eq_iff from_id to_id) in
        let wt = processed-Waits ops others svc d w in
        elim (Outcome-cases (processed ops others svc d w).0) [
          | inr (x, e) ↦ rw (other, e) (inl (tt, wt))
          | inl (some events, e) ↦ rw (other, e) (inl (unfold duplicate_result in (refl, refl), wt))
          | inl (none, e) ↦
              rw (other, e)
                (TransferEnds-wait wt (
                  loop_ends apart fits _ _ _ (Waits-Continues laws r wt h).0
                    (rw (other, e) at small)))
        ]
  ]
