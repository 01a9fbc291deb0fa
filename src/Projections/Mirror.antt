-- ===== src/Projections/Mirror.antt =====
-- The account views of the read side and the folds of the write side.
use streamledger.Prelude.{
  ℕ, ◌+◌, ◌<◌, ◌^◌, ◌≡◌, ◌≢◌, refl, sym, ap, ◌∙◌, inl, inr, Bool, Option-cases, true, false,
  Bool-cases, List, [], ◌∷◌, ◌++◌, String, arith, if◌then◌else◌, length, ◌==◌, string_eq, eq_iff,
  insert, lookup, lookup_or, lookup-insert, select-append,
}
use streamledger.Int64.{int64}
use streamledger.Outcome.{ok, ◌>>=◌, >>=-eq-ok, Outcome-cases}
use streamledger.EventStore.{Event, StreamKey, stream_key_eq, key_of, stream}
use streamledger.EventStore.Numbering.{Numbered}
use streamledger.EventStore.Streams.{stream-snoc_self, stream-snoc_ne}
use streamledger.Ledger.Events.{aggregate_type_account}
use streamledger.Ledger.State.{
  AccountState, apply_account, fold_account, fold_account_from, zero_account,
}
use streamledger.Ledger.Account.{fold_account-snoc}
use streamledger.Ledger.Solvency.{account_key}
use streamledger.Projections.{AccountView, zero_account_view}
use streamledger.Projections.Appliers.{account_relevant, account_change, account_apply}
use streamledger.Projections.Memory.{ReadModels, new, read_models, get_account, upsert_account}
use streamledger.Projections.Projector.{Projector, account_applier, apply_relevant, apply_batch}
use streamledger.Projections.Showing.{Shown, apply_batch-shows, follow_log}
use streamledger.Projections.Redelivery.{projector, checkpoint_of, KeepsCheckpoints, AtLeastOnce}

-- The view that `GetAccount` reads.
abbrev pub view_of : String → ReadModels → AccountView
view_of id s = lookup_or zero_account_view id s.accounts

-- A view shows a state: the balance and the version.
abbrev pub Shows : AccountView → AccountState → Type 0
Shows view st = (view.balance_cents ≡ st.balance_cents) × (view.version ≡ st.version)

-- The switch of the applier makes the same change as a turn of the fold.
account_change-fold :
    (view : AccountView) (st st' : AccountState) (e : Event)
    → view.balance_cents ≡ st.balance_cents
    → apply_account st e ≡ ok st'
    → (account_change view e ≡ ok (record view { balance_cents = st'.balance_cents }))
      × (st'.version ≡ e.version)
unfolding account_change apply_account
account_change-fold view st st' e h q = ground arith

pub get_account-view_of :
    (id : String) (s : ReadModels) → (found : Bool) × (get_account id s ≡ ok (view_of id s, found))
unfolding get_account
get_account-view_of id s = elim (Option-cases (lookup id s.accounts)) [
  | inl q ↦ (false, ground arith)
  | inr (view, q) ↦ (true, ground arith)
]

-- The view that an account event leaves.
abbrev pub changed : Event → AccountState → AccountView
changed e st = record {
  account_id = e.aggregate_id;
  balance_cents = st.balance_cents;
  version = e.version;
  updated_at = e.created_at;
}

pub account_apply-fold :
    (e : Event) (s : ReadModels) (st st' : AccountState)
    → Shows (view_of e.aggregate_id s) st
    → apply_account st e ≡ ok st'
    → account_apply read_models e s
      ≡ (ok tt, record s { accounts = insert e.aggregate_id (changed e st') s.accounts })
unfolding account_apply upsert_account
account_apply-fold e s st st' h q =
    let (found, g) = get_account-view_of e.aggregate_id s in
    let change =
      account_change-fold (record (view_of e.aggregate_id s) { account_id = e.aggregate_id }) st st'
        e h.0 q in
    rw (g, change.0)

pub account_apply-KeepsCheckpoints :
    (name : String) → KeepsCheckpoints name (account_applier read_models)
unfolding account_apply upsert_account
account_apply-KeepsCheckpoints name e s =
    let (found, g) = get_account-view_of e.aggregate_id s in
    elim (Outcome-cases
      (account_change (record (view_of e.aggregate_id s) { account_id = e.aggregate_id }) e)) [
        | inl (view, q) ↦ rw (g, q)
        | inr (x, q) ↦ rw (g, q)
      ]

-- The views show every account that the log folds to.
abbrev pub Mirrors : List Event → ReadModels → Type 0
Mirrors log s =
    (id : String) (st : AccountState)
    → fold_account id (stream (account_key id) log) ≡ ok st
    → Shows (view_of id s) st

-- Every account's events can be replayed.
abbrev pub Replayable : List Event → Type 0
Replayable log =
    (id : String) → (st : AccountState) × (fold_account id (stream (account_key id) log) ≡ ok st)

fold_account_from-prefix :
    (st : AccountState) (xs ys : List Event) {end : AccountState}
    → fold_account_from st (xs ++ ys) ≡ ok end
    → (middle : AccountState) × (fold_account_from st xs ≡ ok middle)
unfolding fold_account_from
fold_account_from-prefix st [] ys h = (st, refl)
fold_account_from-prefix st (x ∷ xs) ys h =
    let (st', p, q) = >>=-eq-ok (apply_account st x) (λ s. fold_account_from s (xs ++ ys)) h in
    let (middle, r) = fold_account_from-prefix st' xs ys q in (middle, rw p r)

pub Replayable-prefix : (xs ys : List Event) → Replayable (xs ++ ys) → Replayable xs
unfolding fold_account
Replayable-prefix xs ys h id =
    fold_account_from-prefix (zero_account id) (stream (account_key id) xs)
      (stream (account_key id) ys)
      (rw (select-append (λ e. key_of e == account_key id) xs ys) at (h id).1)

view_of-insert :
    (i j : String) (view : AccountView) (s : ReadModels)
    → view_of j (record s { accounts = insert i view s.accounts })
      ≡ (if i == j then view else view_of j s)
view_of-insert i j view s = ground (arith, lookup-insert i j view s.accounts)

-- The events of an account up to one of its own: the fold before it, and the turn that it takes.
pub last_turn :
    (done : List Event) (e : Event)
    → e.aggregate_type ≡ aggregate_type_account
    → Replayable (done ++ e ∷ [])
    → (st st' : AccountState) × (fold_account e.aggregate_id
          (stream (account_key e.aggregate_id) done)
        ≡ ok st)
      × (apply_account st e ≡ ok st')
      × (fold_account e.aggregate_id (stream (account_key e.aggregate_id) (done ++ e ∷ []))
          ≡ ok st')
last_turn done e t able =
    let id = e.aggregate_id in
    let k : key_of e ≡ account_key id = rw t refl in
    let (st', f) = able id in
    let split = fold_account-snoc id (stream (account_key id) done) e in
    let g : (fold_account id (stream (account_key id) done) >>= λ st. apply_account st e) ≡ ok st' =
      sym split ∙ ap (fold_account id) (sym (stream-snoc_self (account_key id) done e k)) ∙ f in
    let (st, p, q) =
      >>=-eq-ok (fold_account id (stream (account_key id) done)) (λ st. apply_account st e) g in
    (st, st', p, q, f)

-- One account event, relevant and foldable, is mirrored.
pub Mirrors-apply :
    (done : List Event) (e : Event) (s : ReadModels)
    → e.aggregate_type ≡ aggregate_type_account
    → Replayable (done ++ e ∷ [])
    → Mirrors done s
    → ((account_apply read_models e s).0 ≡ ok tt)
      × Mirrors (done ++ e ∷ []) (account_apply read_models e s).1
Mirrors-apply done e s t able h =
    let (st, st', p, q, f) = last_turn done e t able in
    let i = e.aggregate_id in
    let step = account_apply-fold e s st st' (h i st p) q in
    let version = (account_change-fold (view_of i s) st st' e (h i st p).0 q).1 in
    (
      ap (λ x. x.0) step,
      λ j st″ g. rw step (elim (Bool-cases (i == j)) [
        | inl same ↦
            let g' : fold_account i (stream (account_key i) (done ++ e ∷ [])) ≡ ok st″ =
              ap (λ x. fold_account x (stream (account_key x) (done ++ e ∷ [])))
                ((eq_iff i j).0 same)
              ∙ g in
            let end : st″ ≡ st' = cc in
            rw (view_of-insert i j (changed e st') s, same, end) (refl, sym version)
        | inr other ↦
            let apart : key_of e ≢ account_key j =
              λ r. ground (arith, eq_iff i j, ap (λ (x : StreamKey). x.aggregate_id) r) in
            rw (view_of-insert i j (changed e st') s, other)
              (h j st″ (rw (stream-snoc_ne (account_key j) done e apart) at g))
      ]),
    )

-- An event of another kind adds nothing to mirror.
Mirrors-skip :
    (done : List Event) (e : Event) (s s' : ReadModels)
    → e.aggregate_type ≢ aggregate_type_account
    → s'.accounts ≡ s.accounts
    → Mirrors done s
    → Mirrors (done ++ e ∷ []) s'
Mirrors-skip done e s s' t same h j st g =
    let apart : key_of e ≢ account_key j = λ r. t (ap (λ (x : StreamKey). x.aggregate_type) r) in
    rw same (h j st (rw (stream-snoc_ne (account_key j) done e apart) at g))

pub Mirrors-new : Mirrors [] new
unfolding lookup fold_account fold_account_from
Mirrors-new id st q = ground arith

module _ (name : String) where
  abbrev pub accounts_projector : Projector ReadModels
  accounts_projector = projector name (account_applier read_models)

  pub relevant-Mirrors :
      (done : List Event) (e : Event) (s : ReadModels)
      → Replayable (done ++ e ∷ [])
      → Mirrors done s
      → (hit : Bool) × ((apply_relevant accounts_projector e s).0 ≡ ok hit)
        × Mirrors (done ++ e ∷ []) (apply_relevant accounts_projector e s).1
  unfolding apply_relevant account_relevant
  relevant-Mirrors done e s able h = elim (Bool-cases (account_relevant e)) [
    | inl relevant ↦
        let m =
          Mirrors-apply done e s ((eq_iff e.aggregate_type aggregate_type_account).0 relevant) able
            h in
        (true, rw (relevant, m.0), rw (relevant, m.0) m.1)
    | inr other ↦
        let apart : e.aggregate_type ≢ aggregate_type_account =
          λ r. ground (arith, eq_iff e.aggregate_type aggregate_type_account) in
        (false, rw other, rw other (Mirrors-skip done e s s apart refl h))
  ]

  abbrev shown : Shown name (account_applier read_models)
  shown = record {
    Mirrors = Mirrors;
    Replayable = Replayable;
    prefix = Replayable-prefix;
    relevant = relevant-Mirrors;
    beside = λ log s checkpoints h. h;
    fresh = Mirrors-new;
  }

  -- A replayable log, delivered once and in order, is applied to the end and mirrored.
  pub apply_batch-Mirrors :
      (done log : List Event) (s : ReadModels) (applied : ℕ)
      → length done + length log < 2 ^ 63
      → Replayable (done ++ log)
      → Mirrors done s
      → checkpoint_of name (account_applier read_models) s ≡ int64 (length done)
      → Numbered (λ e. e.global_seq) (length done) log
      → ((apply_batch accounts_projector log applied s).0.1 ≡ ok tt)
        × Mirrors (done ++ log) (apply_batch accounts_projector log applied s).1
        × (checkpoint_of name
              (account_applier read_models)
              (apply_batch accounts_projector log applied s).1
            ≡ int64 (length (done ++ log)))
  apply_batch-Mirrors =
      apply_batch-shows name (account_applier read_models) (account_apply-KeepsCheckpoints name)
        shown

  -- A replayable log of less than 2^63 events, delivered at least once and in order to a projector
  -- of accounts on empty views, is applied without an error, and then the view of every account has
  -- the balance and the version of the account's fold.
  pub views_follow_log :
      (log deliveries : List Event)
      → Numbered (λ e. e.global_seq) 0 log
      → length log < 2 ^ 63
      → Replayable log
      → AtLeastOnce 0 log deliveries
      → ((apply_batch accounts_projector deliveries 0 new).0.1 ≡ ok tt)
        × Mirrors log (apply_batch accounts_projector deliveries 0 new).1
  views_follow_log =
      follow_log name (account_applier read_models) (account_apply-KeepsCheckpoints name) shown
