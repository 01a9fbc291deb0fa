-- ===== src/EventStore/Postgres/Fulfils.antt =====
-- The Postgres log (internal/eventstore/postgres/store.go) and the contract of `eventstore.Store`.
use streamledger.Prelude.{
  ◌≡◌, ◌++◌, ◌∷◌, map, Bool-cases, ◌≢◌, ◌⊎◌, inl, inr, refl, ap, ◌∙◌, Bool, true, false, List, [],
  String, arith, string_eq,
}
use streamledger.Sql.{Certain}
use streamledger.Json.{Payload}
use streamledger.Outcome.{Error, Outcome, ok, err}
use streamledger.EventStore.{AppendEvent, Event, stream_key_eq, produced_under}
use streamledger.EventStore.Contract.{Lawful, Wrote}
use streamledger.EventStore.Postgres.{Database, postgres_store, append}
use streamledger.EventStore.Postgres.Tables.{Tables, has_key, Serves, as_stored}
use streamledger.EventStore.Postgres.Invariant.{IsSound, log_of}
use streamledger.EventStore.Postgres.Queries.{loads_lem, lookup_lem}
use streamledger.EventStore.Postgres.Batch.{Appended, append_in_ok}
use streamledger.EventStore.Postgres.Endings.{
  Worked, Committed, Doubtful, Refused, last_in, append_cases,
}

module _ {D T : Type 0} (db : Database D T) (jsonb : Payload → Payload) (p : Serves jsonb db) where
  -- New events were written: all of them, in the order of the batch, at the end of the log.
  pub record Written (d : String) (batch : List AppendEvent) (before : Tables) (events : List Event)
      (later : Tables) : Type 0 where
    pub appended : Appended jsonb d batch before events later
    pub unused : d ≢ "" → has_key d before.keys ≡ false
    pub fresh : d ≢ "" → produced_under d (log_of before) ≡ []

  -- What the transaction of a call has done to the tables that it sees.
  abbrev TxDid : String → List AppendEvent → Tables → List Event → Bool → Tables → Type 0
  TxDid d batch before events true later =
      (later ≡ before)
      × (d ≢ "")
      × (has_key d before.keys ≡ true)
      × (events ≡ produced_under d (log_of before))
  TxDid d batch before events false later = Written d batch before events later

  module _ (d : String) (batch : List AppendEvent) (s : D) (h : IsSound (p.stored s)) where
    worked_lem :
        (events : List Event) (dup : Bool) (w : Worked db d batch s events dup)
        → TxDid d batch (p.stored s) events dup (p.seen (last_in db w))
    worked_lem events dup w =
        let start : p.seen w.start ≡ p.stored s = p.begins s w.began in
        elim (append_in_ok db jsonb p d batch w.start (rw start h) w.worked) [
          | inl (is_dup, ne, used, found, unchanged) ↦
              rw is_dup (unchanged ∙ start, ne, rw start at used, rw start at found)
          | inr (is_new, written, unused, fresh) ↦ rw is_new (record {
            appended = rw start at written;
            unused = rw start at unused;
            fresh = rw start at fresh;
          })
        ]

  -- How a call of `Append` may end.
  abbrev pub Ended : String → List AppendEvent → D → Outcome (List Event × Bool) × D → Type 0
  Ended d batch s (err x, s') =
      ((p.stored s' ≡ p.stored s) × Refused db batch s x)
      ⊎ ((t : T) × (y : Error) × (events : List Event) × ((db.commit t s).0 ≡ err y)
          × Written d batch (p.stored s) events (p.stored s'))
  Ended d batch s (ok (events, true), s') =
      (s' ≡ s)
      × (d ≢ "")
      × (has_key d (p.stored s).keys ≡ true)
      × (events ≡ produced_under d (log_of (p.stored s)))
  Ended d batch s (ok (events, false), s') = Written d batch (p.stored s) events (p.stored s')

  Committed-Ended :
      (d : String) (batch : List AppendEvent) (s : D) (events : List Event) (dup : Bool)
      → IsSound (p.stored s)
      → Committed db d batch s events dup
      → Ended d batch s (append db d batch s)
  Committed-Ended d batch s events true h c =
      let (same, ne, used, found) = worked_lem d batch s h events true c.work in
      rw c.left (p.commits_nothing (last_in db c.work) s same c.committed, ne, used, found)
  Committed-Ended d batch s events false h c =
      let written = worked_lem d batch s h events false c.work in
      rw (c.left, p.commits (last_in db c.work) s c.committed) written

  Doubtful-Ended :
      (d : String) (batch : List AppendEvent) (s : D) (events : List Event) (dup : Bool) (x : Error)
      → IsSound (p.stored s)
      → Doubtful db d batch s events dup x
      → Ended d batch s (append db d batch s)
  Doubtful-Ended d batch s events dup x h c =
      let t = last_in db c.work in
      elim (p.commit_fails t s c.broke) [
        | inl back ↦ rw c.left (inl (ap (λ s'. p.stored s') back, inr (inr (t, c.reason, c.broke))))
        | inr there ↦ elim (Bool-cases dup) [
          | inl is_dup ↦
              let done = rw is_dup at (worked_lem d batch s h events dup c.work) in
              rw c.left (inl (there ∙ done.0, inr (inr (t, c.reason, c.broke))))
          | inr is_new ↦
              let done = rw is_new at (worked_lem d batch s h events dup c.work) in
              rw c.left (inr (t, c.reason, events, c.broke, rw there done))
        ]
      ]

  pub append_exact :
      (d : String) (batch : List AppendEvent) (s : D)
      → IsSound (p.stored s)
      → Ended d batch s (append db d batch s)
  append_exact d batch s h = elim (append_cases db p.rolls_back d batch s) [
    | inl (x, f, why) ↦ rw f (inl (refl, why))
    | inr (inl (events, dup, x, c)) ↦ Doubtful-Ended d batch s events dup x h c
    | inr (inr (events, dup, c)) ↦ Committed-Ended d batch s events dup h c
  ]

  Ended-IsSound :
      (d : String) (batch : List AppendEvent) (s : D) (x : Outcome (List Event × Bool) × D)
      → IsSound (p.stored s)
      → Ended d batch s x
      → IsSound (p.stored x.1)
  Ended-IsSound d batch s (err x, s') h (inl (same, why)) = rw same h
  Ended-IsSound d batch s (err x, s') h (inr (t, y, events, broke, w)) = w.appended.sound
  Ended-IsSound d batch s (ok (events, true), s') h (same, ne, used, found) = rw same h
  Ended-IsSound d batch s (ok (events, false), s') h w = w.appended.sound

  pub append-IsSound :
      (d : String) (batch : List AppendEvent) (s : D)
      → IsSound (p.stored s)
      → IsSound (p.stored (append db d batch s).1)
  append-IsSound d batch s h =
      Ended-IsSound d batch s (append db d batch s) h (append_exact d batch s h)

  pub append-Ended :
      (d : String) (batch : List AppendEvent) (s : D) {r : Outcome (List Event × Bool)}
      → IsSound (p.stored s)
      → (append db d batch s).0 ≡ r
      → Ended d batch s (r, (append db d batch s).1)
  append-Ended d batch s {r} h e =
      let whole : append db d batch s ≡ (r, (append db d batch s).1) =
        ap (λ r. (r, (append db d batch s).1)) e in
      rw whole at (append_exact d batch s h)

  -- The contract of the in-process log holds where no connection is lost and where JSONB gives a
  -- document back with its keys in the order in which they were written.
  module _ (certain : Certain db) (ordered : (x : Payload) → jsonb x ≡ x) where
    kept : (events : List Event) → map (as_stored jsonb) events ≡ events
    kept [] = refl
    kept (e ∷ events) =
        let one : as_stored jsonb e ≡ e =
          ap (λ (x : Payload). record e { payload = x }) (ordered e.payload) in
        let rest = kept events in rw (one, rest)

    pub refuses_lem :
        (d : String) (batch : List AppendEvent) (s : D) {x : Error}
        → (append db d batch s).0 ≡ err x
        → (append db d batch s).1 ≡ s
    refuses_lem d batch s e = elim (append_cases db p.rolls_back d batch s) [
      | inl (x, f, why) ↦ rw f refl
      | inr (inl (events, dup, x, c)) ↦
          ap (λ x. x.1) c.left ∙ certain (last_in db c.work) s c.reason c.broke
      | inr (inr (events, dup, c)) ↦ let f = c.left in absurd (ground arith)
    ]

    pub writes_lem :
        (d : String) (batch : List AppendEvent) (s : D) {events : List Event}
        → IsSound (p.stored s)
        → (append db d batch s).0 ≡ ok (events, false)
        → Wrote d batch (log_of (p.stored s)) (log_of (p.stored (append db d batch s).1)) events
    writes_lem d batch s {events} h e =
        let w = append-Ended d batch s h e in
        record {
          grown = w.appended.grown ∙ ap (λ l. log_of (p.stored s) ++ l) (kept events);
          admitted = w.appended.admitted;
          recorded = w.appended.recorded;
          fresh = w.fresh;
        }

    -- `var _ eventstore.Store = (*Store)(nil)`, with the promises of the interface's comments.
    abbrev pub postgres_lawful : Lawful (postgres_store db)
    postgres_lawful = record {
      IsValid = λ s. IsSound (p.stored s);
      log = λ s. log_of (p.stored s);
      sequenced = λ s h _. h.rising;
      versioned = λ s h. h.versioned;
      keeps_valid = append-IsSound;
      loads = λ k s h e. loads_lem db jsonb p k s h e;
      finds = λ d s h e. let (ne, used, same) = lookup_lem db jsonb p d s h e in (ne, same);
      writes = λ d batch s h e. writes_lem d batch s h e;
      replays = λ d batch s h e.
          let (same, ne, used, found) = append-Ended d batch s h e in (same, ne, found);
      refuses = refuses_lem;
    }
