-- ===== src/EventStore/Postgres/Causes.antt =====
-- Why `Append` (internal/eventstore/postgres/store.go) reports an error.
use streamledger.Prelude.{
  ◌≡◌, ◌≢◌, ◌⊎◌, inl, inr, refl, ap, ◌∙◌, true, false, not, ◌&&◌, Bool-cases, none, some, List, [],
  ◌∷◌, ◌++◌, String, arith, map, ℤ, eqb_ℤ, ◌==◌, string_eq,
}
use streamledger.Outcome.{Error, Outcome, ok, err, version_conflict, Outcome-cases}
use streamledger.Action.{Action, ◌>>=◌}
use streamledger.EventStore.{AppendEvent, target, no_version_check}
use streamledger.EventStore.Postgres.Reads.{context_ok, context_err, collect_err}
use streamledger.EventStore.Postgres.{
  EventRow, Rows, Statement, Database, query, load_dedupe_events, reserve, link, insert_one,
  append_one, append_all, append_in, key_events, lock_version, key_exists, insert_key,
  ensure_stream, insert_event, set_version, link_key,
}

-- What goes before an error of a transaction: a statement failed, the rows of the key's events could not be
-- read, or the version that was read for an event's stream is not the one that it expects.
pub data Cause {D T : Type 0} (db : Database D T) (batch : List AppendEvent) (x : Error)
    : Type 0 where
  statement_failed : (q : Statement) (t : T) (y : Error) → (db.run q t).0 ≡ err y → Cause db batch x
  scan_failed :
      (d : String) (t : T) (rows : Rows)
      → (db.run (key_events d) t).0 ≡ ok rows
      → ((all : List EventRow) → rows.scans ≡ map ok all → rows.failure ≢ ok tt)
      → Cause db batch x
  conflict :
      (before : List AppendEvent) (e : AppendEvent) (after : List AppendEvent) (t : T) (current : ℤ)
      → batch ≡ before ++ e ∷ after
      → (db.run (lock_version (target e)) t).0 ≡ ok current
      → e.expected_version ≢ no_version_check
      → e.expected_version ≢ current
      → x ≡ version_conflict
      → Cause db batch x

bind_err :
    {S A B : Type 0} (m : Action S A) (f : A → Action S B) (s : S) {x : Error}
    → ((m >>= f) s).0 ≡ err x
    → ((m s).0 ≡ err x) ⊎ ((a : A) × ((m s).0 ≡ ok a) × ((f a (m s).1).0 ≡ err x))
bind_err {B = B} m f s {x} h = elim (Outcome-cases (m s).0) [
  | inl (a, q) ↦ inr (a, q, rw q at h)
  | inr (y, q) ↦
      let same : ◌≡◌ {A = Outcome B} (err y) (err x) = rw q at h in
      let is : y ≡ x = ground arith in inl (q ∙ ap err is)
]

module _ {D T : Type 0} (db : Database D T) where
  query-Cause :
      (batch : List AppendEvent) (q : Statement) (what : String) (t : T) {x : Error}
      → (query db q what t).0 ≡ err x
      → Cause db batch x
  unfolding query
  query-Cause batch q what t h =
      let (y, e) = context_err what (db.run q t).0 h in statement_failed q t y e

  Cause-cons :
      (a : AppendEvent) (batch : List AppendEvent) {x : Error}
      → Cause db batch x
      → Cause db (a ∷ batch) x
  Cause-cons a batch (statement_failed q t y h) = statement_failed q t y h
  Cause-cons a batch (scan_failed d t rows h bad) = scan_failed d t rows h bad
  Cause-cons a batch (conflict before e after t current split locked checked apart is) =
      conflict (a ∷ before) e after t current (ap (λ l. a ∷ l) split) locked checked apart is

  load_dedupe_events-Cause :
      (batch : List AppendEvent) (d : String) (t : T) {x : Error}
      → (load_dedupe_events db d t).0 ≡ err x
      → Cause db batch x
  unfolding load_dedupe_events
  load_dedupe_events-Cause batch d t h =
      elim (bind_err (query db (key_events d) "query dedupe events") _ t h) [
        | inl q ↦ query-Cause batch (key_events d) "query dedupe events" t q
        | inr (rows, q, bad) ↦
            scan_failed d t rows (unfold query in context_ok "query dedupe events" _ q)
              (λ all scans fine. collect_err "scan dedupe event" all (rw (scans, fine) at bad))
      ]

  reserve-Cause :
      (batch : List AppendEvent) (d : String) (t : T) {x : Error}
      → (reserve db d t).0 ≡ err x
      → Cause db batch x
  unfolding reserve
  reserve-Cause batch d t {x} h = elim (Bool-cases (d == "")) [
    | inl empty ↦ let bad : ok none ≡ err x = rw empty at h in absurd (ground arith)
    | inr key ↦ elim (bind_err (query db (key_exists d) "check dedupe") _ t (rw key at h)) [
      | inl q ↦ query-Cause batch (key_exists d) "check dedupe" t q
      | inr (true, q, rest) ↦ elim (bind_err (load_dedupe_events db d) _ _ rest) [
        | inl r ↦ load_dedupe_events-Cause batch d _ r
        | inr (events, r, bad) ↦ absurd (ground arith)
      ]
      | inr (false, q, rest) ↦
          elim (bind_err (query db (insert_key d) "reserve dedupe key") _ _ rest) [
            | inl r ↦ query-Cause batch (insert_key d) "reserve dedupe key" _ r
            | inr (u, r, bad) ↦ absurd (ground arith)
          ]
    ]
  ]

  link-Cause :
      (batch : List AppendEvent) (d : String) (n : ℤ) (t : T) {x : Error}
      → (link db d n t).0 ≡ err x
      → Cause db batch x
  unfolding link
  link-Cause batch d n t {x} h = elim (Bool-cases (d == "")) [
    | inl empty ↦ let bad : ok tt ≡ err x = rw empty at h in absurd (ground arith)
    | inr key ↦ query-Cause batch (link_key d n) "link dedupe event" t (rw key at h)
  ]

  insert_one-Cause :
      (batch : List AppendEvent) (d : String) (a : AppendEvent) (current : ℤ) (t : T) {x : Error}
      → (insert_one db d a current t).0 ≡ err x
      → Cause db batch x
  unfolding insert_one
  insert_one-Cause batch d a current t h =
      elim (bind_err (query db (insert_event _) "insert event") _ t h) [
        | inl q ↦ query-Cause batch (insert_event _) "insert event" t q
        | inr (drawn, q, h₁) ↦
            elim (bind_err (query db (set_version _ (target a)) "bump stream version") _ _ h₁) [
              | inl r ↦ query-Cause batch (set_version _ (target a)) "bump stream version" _ r
              | inr (u, r, h₂) ↦ elim (bind_err (link db d drawn.0) _ _ h₂) [
                | inl k ↦ link-Cause batch d drawn.0 _ k
                | inr (v, k, bad) ↦ absurd (ground arith)
              ]
            ]
      ]

  append_one-Cause :
      (d : String) (a : AppendEvent) (batch : List AppendEvent) (t : T) {x : Error}
      → (append_one db d a t).0 ≡ err x
      → Cause db (a ∷ batch) x
  unfolding append_one
  append_one-Cause d a batch t {x} h =
      elim (bind_err (query db (ensure_stream (target a)) "ensure stream row") _ t h) [
        | inl q ↦ query-Cause (a ∷ batch) (ensure_stream (target a)) "ensure stream row" t q
        | inr (u, q, h₁) ↦
            let t₁ = (query db (ensure_stream (target a)) "ensure stream row" t).1 in
            elim (bind_err (query db (lock_version (target a)) "lock stream row") _ t₁ h₁) [
              | inl r ↦ query-Cause (a ∷ batch) (lock_version (target a)) "lock stream row" t₁ r
              | inr (current, r, h₂) ↦
                  elim (Bool-cases (
                    not (eqb_ℤ a.expected_version no_version_check)
                    && not (eqb_ℤ a.expected_version current))) [
                      | inl refused ↦
                          let is : err version_conflict ≡ err x = rw refused at h₂ in
                          conflict [] a batch t₁ current refl
                            (unfold query in context_ok "lock stream row" _ r)
                            (λ same. ground arith) (λ same. ground arith) (ground arith)
                      | inr fits ↦ insert_one-Cause (a ∷ batch) d a current _ (rw fits at h₂)
                    ]
            ]
      ]

  append_all-Cause :
      (d : String) (batch : List AppendEvent) (t : T) {x : Error}
      → (append_all db d batch t).0 ≡ err x
      → Cause db batch x
  unfolding append_all
  append_all-Cause d [] t h = absurd (ground arith)
  append_all-Cause d (a ∷ batch) t h = elim (bind_err (append_one db d a) _ t h) [
    | inl q ↦ append_one-Cause d a batch t q
    | inr (event, q, h₁) ↦ elim (bind_err (append_all db d batch) _ _ h₁) [
      | inl r ↦ Cause-cons a batch (append_all-Cause d batch _ r)
      | inr (rest, r, bad) ↦ absurd (ground arith)
    ]
  ]

  pub append_in-Cause :
      (d : String) (batch : List AppendEvent) (t : T) {x : Error}
      → (append_in db d batch t).0 ≡ err x
      → Cause db batch x
  unfolding append_in
  append_in-Cause d batch t h = elim (bind_err (reserve db d) _ t h) [
    | inl q ↦ reserve-Cause batch d t q
    | inr (some events, q, bad) ↦ absurd (ground arith)
    | inr (none, q, h₁) ↦ elim (bind_err (append_all db d batch) _ _ h₁) [
      | inl r ↦ append_all-Cause d batch _ r
      | inr (produced, r, bad) ↦ absurd (ground arith)
    ]
  ]
