-- ===== src/Ledger/Service/Settle.antt =====
-- The end of an attempt, by what the append reported.
use streamledger.Prelude.{
  ℕ, ◌≡◌, ◌⊎◌, inl, inr, refl, ap, Bool, true, false, ◌&&◌, List, ◌∷◌, String, arith, ltb,
  if◌then◌else◌, Bool-cases,
}
use streamledger.Outcome.{Error, Outcome, ok, err, is_version_conflict, Outcome-cases}
use streamledger.EventStore.{AppendEvent, Event, Store, stream_key_eq}
use streamledger.EventStore.Contract.{Lawful}
use streamledger.Ledger.Command.{World, Others}
use streamledger.Ledger.Interleaving.{Waits}
use streamledger.Ledger.Service.{Result, Service, settle, publish, applied_result, duplicate_result}

-- An error, or the report of an earlier call's result.
abbrev pub IsIdle : Outcome Result → Type 0
IsIdle (ok r) = (r.applied ≡ false) × (r.duplicate ≡ true)
IsIdle (err x) = Unit

-- The command changed nothing and published nothing.
abbrev pub Silent : {S : Type 0} → Others S → World S → Outcome Result × World S → Type 0
Silent others w (r, w') = IsIdle r × Waits others w w'

module _ {S : Type 0} (ops : Store S) (others : Others S) (svc : Service) (t id : String) (left : ℕ)
    (again : World S → Outcome Result × World S) where
  pub settled_result :
      (e : Event) (rest : List Event) (w : World S)
      → (settle ops others svc t id left again (ok (e ∷ rest, false)) w).0
        ≡ ok (record { applied = true; duplicate = false; new_version = e.version })
  unfolding settle publish applied_result
  settled_result e rest w = refl

  settled_err :
      (x : Error) (w : World S)
      → settle ops others svc t id left again (err x) w
        ≡ (if is_version_conflict x && ltb 0 left then again w else (err x, w))
  unfolding settle
  settled_err x w = refl

  settled_dup :
      (produced : List Event) (w : World S)
      → settle ops others svc t id left again (ok (produced, true)) w
        ≡ (ok (duplicate_result produced t id), w)
  unfolding settle
  settled_dup produced w = refl

  pub settled_store :
      (e : Event) (rest : List Event) (w : World S)
      → (settle ops others svc t id left again (ok (e ∷ rest, false)) w).1.store ≡ w.store
  unfolding settle publish applied_result
  settled_store e rest w = ground arith

module _ {S : Type 0} {ops : Store S} (laws : Lawful ops) (others : Others S) (svc : Service)
    (t id d : String) (left : ℕ) (again : World S → Outcome Result × World S)
    (batch : List AppendEvent) (at : World S) (h : laws.IsValid at.store) where
  abbrev pub appended : Outcome (List Event × Bool) × S
  appended = ops.append d batch at.store

  abbrev pub settled : Outcome Result × World S
  settled = settle ops others svc t id left again appended.0 (record at { store = appended.1 })

  refused_cases :
      (fault : Error) → appended.0 ≡ err fault → (settled ≡ again at) ⊎ (settled ≡ (err fault, at))
  refused_cases fault a =
      let same : record at { store = appended.1 } ≡ at =
        ap (λ s. record at { store = s }) (laws.refuses d batch at.store a) in
      let shown : settled
          ≡ (if is_version_conflict fault && ltb 0 left then again at else (err fault, at)) =
        rw (a, same) (settled_err ops others svc t id left again fault at) in
      elim (Bool-cases (is_version_conflict fault && ltb 0 left)) [
        | inl retried ↦ inl (rw retried at shown)
        | inr failed ↦ inr (rw failed at shown)
      ]

  -- Another attempt is made on the store as it was found, or the command ends there and has changed
  -- nothing, or the events were written.
  pub settled_cases :
      (settled ≡ again at)
      ⊎ ((idle : Outcome Result) × IsIdle idle × (settled ≡ (idle, at)))
      ⊎ ((produced : List Event) × (appended.0 ≡ ok (produced, false)))
  settled_cases = elim (Outcome-cases appended.0) [
    | inr (fault, a) ↦ elim (refused_cases fault a) [
      | inl on ↦ inl on
      | inr on ↦ inr (inl (err fault, tt, on))
    ]
    | inl ((produced, true), a) ↦
        let same : record at { store = appended.1 } ≡ at =
          ap (λ s. record at { store = s }) (laws.replays d batch at.store h a).0 in
        inr (
          inl (
            ok (duplicate_result produced t id),
            unfold duplicate_result in (refl, refl),
            rw (a, same) (settled_dup ops others svc t id left again produced at),
          ))
    | inl ((produced, false), a) ↦ inr (inr (produced, a))
  ]
