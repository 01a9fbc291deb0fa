-- ===== src/EventStore/Postgres/Endings.antt =====
-- The ways in which `Append` (internal/eventstore/postgres/store.go) ends, by what became of its transaction.
use streamledger.Prelude.{◌≡◌, ◌⊎◌, inl, inr, Bool, List, String, arith, if◌then◌else◌, string_eq}
use streamledger.Outcome.{Error, ok, err, Outcome-cases}
use streamledger.EventStore.{AppendEvent, Event, stream_key_eq}
use streamledger.EventStore.Postgres.{Database, context, append_in, finish, append}
use streamledger.EventStore.Postgres.Causes.{Cause, append_in-Cause}
use streamledger.EventStore.Postgres.Reads.{context_ok, context_err}

module _ {D T : Type 0} (db : Database D T) where
  -- The transaction that a call of `Append` began, and what it brought back.
  pub record Worked (d : String) (batch : List AppendEvent) (s : D) (events : List Event)
      (dup : Bool) : Type 0 where
    pub start : T
    pub began : db.begin s ≡ ok start
    pub worked : (append_in db d batch start).0 ≡ ok (events, dup)

  abbrev pub last_in :
      {d : String} {batch : List AppendEvent} {s : D} {events : List Event} {dup : Bool}
      → Worked d batch s events dup
      → T
  last_in {d} {batch} w = (append_in db d batch w.start).1

  -- A call that is not refused has committed its transaction.
  pub record Committed (d : String) (batch : List AppendEvent) (s : D) (events : List Event)
      (dup : Bool) : Type 0 where
    pub work : Worked d batch s events dup
    pub committed : (db.commit (last_in work) s).0 ≡ ok tt
    pub left : append db d batch s ≡ (ok (events, dup), (db.commit (last_in work) s).1)

  -- A call whose COMMIT reported an error.
  pub record Doubtful (d : String) (batch : List AppendEvent) (s : D) (events : List Event)
      (dup : Bool) (x : Error) : Type 0 where
    pub work : Worked d batch s events dup
    pub reason : Error
    pub broke : (db.commit (last_in work) s).0 ≡ err reason
    pub left :
        append db d batch s ≡ (err x, db.rollback (last_in work) (db.commit (last_in work) s).1)

  -- The driver could not begin the transaction, there was a cause in it, or COMMIT reported an error.
  abbrev pub Refused : List AppendEvent → D → Error → Type 0
  Refused batch s x =
      ((y : Error) × (db.begin s ≡ err y))
      ⊎ Cause db batch x
      ⊎ ((t : T) × (y : Error) × ((db.commit t s).0 ≡ err y))

  finish_cases :
      (what : String) (events : List Event) (dup : Bool) (t : T) (s : D)
      → ((x y : Error) × ((db.commit t s).0 ≡ err y)
          × (finish db {A = List Event × Bool} what (events, dup) t s
              ≡ (err x, db.rollback t (db.commit t s).1)))
        ⊎ (((db.commit t s).0 ≡ ok tt)
            × (finish db {A = List Event × Bool} what (events, dup) t s
                ≡ (ok (events, dup), (db.commit t s).1)))
  unfolding finish
  finish_cases what events dup t s = elim (Outcome-cases (context what (db.commit t s).0)) [
    | inl (u, q) ↦ inr (context_ok what (db.commit t s).0 q, ground arith)
    | inr (x, q) ↦
        let (y, broke) = context_err what (db.commit t s).0 q in inl (x, y, broke, ground arith)
  ]

  module _ (rolls_back : (t : T) (s : D) → db.rollback t s ≡ s) where
    pub append_cases :
        (d : String) (batch : List AppendEvent) (s : D)
        → ((x : Error) × (append db d batch s ≡ (err x, s)) × Refused batch s x)
          ⊎ ((events : List Event) × (dup : Bool) × (x : Error) × Doubtful d batch s events dup x)
          ⊎ ((events : List Event) × (dup : Bool) × Committed d batch s events dup)
    unfolding append
    append_cases d batch s = elim (Outcome-cases (context "begin tx" (db.begin s))) [
      | inr (x, q) ↦ inl (x, ground arith, inl (context_err "begin tx" (db.begin s) q))
      | inl (t, q) ↦ elim (Outcome-cases (append_in db d batch t).0) [
        | inr (x, w) ↦
            let back = rolls_back (append_in db d batch t).1 s in
            inl (x, ground arith, inr (inl (append_in-Cause db d batch t w)))
        | inl ((events, dup), w) ↦
            let work : Worked d batch s events dup = record {
              start = t;
              began = context_ok "begin tx" (db.begin s) q;
              worked = w;
            } in
            elim (finish_cases (if dup then "commit dedupe read" else "commit") events dup
              (append_in db d batch t).1 s) [
                | inl (x, y, broke, f) ↦ inr (
                    inl (
                      events,
                      dup,
                      x,
                      record { work = work; reason = y; broke = broke; left = ground arith },
                    ))
                | inr (c, f) ↦
                    inr (
                      inr (events, dup, record { work = work; committed = c; left = ground arith }))
              ]
      ]
    ]
