-- ===== src/GrpcServer/Queries.antt =====
-- The query handlers of internal/grpcserver/server.go over the in-memory views.
use streamledger.Prelude.{
  ◌<◌, ◌^◌, ◌≡◌, ◌≢◌, refl, ap, inl, inr, Bool, true, false, Bool-cases, none, some, List, [], ◌∷◌,
  ◌++◌, String, ◌==◌, string_eq, eq_iff, lookup, lookup-insert, length, arith,
}
use streamledger.Outcome.{ok}
use streamledger.EventStore.{Event, stream, key_of, StreamKey, stream_key_eq}
use streamledger.EventStore.Numbering.{Numbered}
use streamledger.EventStore.Streams.{stream-snoc_self, stream-snoc_ne}
use streamledger.Ledger.Events.{aggregate_type_account}
use streamledger.Ledger.State.{AccountState, fold_account}
use streamledger.Ledger.Solvency.{account_key}
use streamledger.Projections.Memory.{ReadModels, read_models, new, get_account}
use streamledger.Projections.Appliers.{account_relevant, account_apply}
use streamledger.Projections.Projector.{account_applier, apply_relevant, apply_batch}
use streamledger.Projections.Redelivery.{AtLeastOnce}
use streamledger.Projections.Showing.{Shown, follow_log}
use streamledger.Projections.Mirror.{
  view_of, Mirrors, Mirrors-new, Mirrors-apply, Replayable, Replayable-prefix, relevant-Mirrors,
  accounts_projector, last_turn, account_apply-fold, account_apply-KeepsCheckpoints, changed,
}
use streamledger.GrpcServer.{answer, GetBalanceResponse, unix_milli, get_balance}

abbrev pub has_events : List Event → Bool
has_events [] = false
has_events (e ∷ events) = true

abbrev pub has_view : String → ReadModels → Bool
has_view id s = elim (lookup id s.accounts) [ none ↦ false | some view ↦ true ]

-- The views show the accounts of a log, and no others.
abbrev Lists : List Event → ReadModels → Type 0
Lists log s =
    Mirrors log s × ((id : String) → has_view id s ≡ has_events (stream (account_key id) log))

has_events-snoc : (events : List Event) (e : Event) → has_events (events ++ e ∷ []) ≡ true
has_events-snoc [] e = refl
has_events-snoc (x ∷ events) e = refl

-- An account event gives its account a view.
apply-Lists :
    (done : List Event) (e : Event) (s : ReadModels)
    → e.aggregate_type ≡ aggregate_type_account
    → Replayable (done ++ e ∷ [])
    → Lists done s
    → (id : String)
    → has_view id (account_apply read_models e s).1
      ≡ has_events (stream (account_key id) (done ++ e ∷ []))
apply-Lists done e s t able (m, known) id =
    let (st, st', p, q, f) = last_turn done e t able in
    let i = e.aggregate_id in
    let step = account_apply-fold e s st st' (m i st p) q in
    rw step (elim (Bool-cases (i == id)) [
      | inl same ↦
          let is : key_of e ≡ account_key id = rw t (ap account_key ((eq_iff i id).0 same)) in
          rw
            (
              stream-snoc_self (account_key id) done e is,
              has_events-snoc (stream (account_key id) done) e,
            )
            (ground (arith, same, lookup-insert i id (changed e st') s.accounts))
      | inr other ↦
          let apart : key_of e ≢ account_key id =
            λ r. ground (arith, eq_iff i id, ap (λ (x : StreamKey). x.aggregate_id) r) in
          rw (stream-snoc_ne (account_key id) done e apart)
            (ground (arith, other, known id, lookup-insert i id (changed e st') s.accounts))
    ])

get_account-found :
    (id : String) (s : ReadModels) → get_account id s ≡ ok (view_of id s, has_view id s)
unfolding get_account
get_account-found id s = ground arith

module _ (name : String) where
  relevant_known :
      (done : List Event) (e : Event) (s : ReadModels)
      → Replayable (done ++ e ∷ [])
      → Lists done s
      → (id : String)
      → has_view id (apply_relevant (accounts_projector name) e s).1
        ≡ has_events (stream (account_key id) (done ++ e ∷ []))
  unfolding apply_relevant account_relevant
  relevant_known done e s able h id = elim (Bool-cases (account_relevant e)) [
    | inl relevant ↦
        let t = (eq_iff e.aggregate_type aggregate_type_account).0 relevant in
        let end = Mirrors-apply done e s t able h.0 in
        rw (relevant, end.0) (apply-Lists done e s t able h id)
    | inr other ↦
        let apart : key_of e ≢ account_key id = λ r. ground (
          arith,
          eq_iff e.aggregate_type aggregate_type_account,
          ap (λ (x : StreamKey). x.aggregate_type) r,
        ) in
        rw (other, stream-snoc_ne (account_key id) done e apart) (h.1 id)
  ]

  relevant-Lists :
      (done : List Event) (e : Event) (s : ReadModels)
      → Replayable (done ++ e ∷ [])
      → Lists done s
      → (hit : Bool) × ((apply_relevant (accounts_projector name) e s).0 ≡ ok hit)
        × Lists (done ++ e ∷ []) (apply_relevant (accounts_projector name) e s).1
  relevant-Lists done e s able (m, known) =
      let (hit, q, m') = relevant-Mirrors name done e s able m in
      (hit, q, (m', relevant_known done e s able (m, known)))

  abbrev lists : Shown name (account_applier read_models)
  lists = record {
    Mirrors = Lists;
    Replayable = Replayable;
    prefix = Replayable-prefix;
    relevant = relevant-Lists;
    beside = λ log s checkpoints h. h;
    fresh = (Mirrors-new, λ id. unfold lookup in refl);
  }

  -- A replayable log of less than 2^63 events, delivered at least once and in order to a projector
  -- of accounts on empty views: then GetBalance with an identifier answers with the balance and the
  -- version that the account's events in the log fold to, and says that the account is found just
  -- when the log has events of it.
  pub get_balance-fold :
      (log deliveries : List Event) (id : String) (st : AccountState)
      → Numbered (λ e. e.global_seq) 0 log
      → length log < 2 ^ 63
      → Replayable log
      → AtLeastOnce 0 log deliveries
      → id ≢ ""
      → fold_account id (stream (account_key id) log) ≡ ok st
      → (res : GetBalanceResponse) × (get_balance read_models id
            (apply_batch (accounts_projector name) deliveries 0 new).1
          ≡ answer res)
        × (res.account_id ≡ id)
        × (res.found ≡ has_events (stream (account_key id) log))
        × (res.balance_cents ≡ st.balance_cents)
        × (res.version ≡ st.version)
  unfolding get_balance
  get_balance-fold log deliveries id st num small able once named f =
      let s = (apply_batch (accounts_projector name) deliveries 0 new).1 in
      let (m, known) =
        (follow_log name (account_applier read_models) (account_apply-KeepsCheckpoints name) lists
          log deliveries num small able once).1 in
      let g = get_account-found id s in
      let shown = m id st f in
      elim (Bool-cases (id == "")) [
        | inl missing ↦ absurd (named ((eq_iff id "").0 missing))
        | inr present ↦ (
          record {
            account_id = id;
            found = has_view id s;
            balance_cents = (view_of id s).balance_cents;
            version = (view_of id s).version;
            updated_at_unix_ms = unix_milli (view_of id s).updated_at;
          },
          rw (get_balance, present, g),
          refl,
          known id,
          shown.0,
          shown.1,
        )
      ]
