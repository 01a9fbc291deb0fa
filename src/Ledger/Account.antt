-- ===== src/Ledger/Account.antt =====
-- Accounts: what an accepted decision does to the folded state.
use streamledger.Prelude.{
  ◌^◌, ◌≡◌, inl, inr, true, false, List, [], ◌∷◌, ◌++◌, String, arith, ℤ, pos, ◌+ℤ◌, ◌-ℤ◌, ◌≤ℤ◌,
  ◌<ℤ◌, int_laws, string_eq,
}
use streamledger.Int64.{
  IsInt64, add64, sub64, add64_exact, sub64_exact, add64_overflow, IsInt64-sub,
}
use streamledger.Outcome.{ok, ◌>>=◌, >>=-ok, Outcome-cases}
use streamledger.EventStore.{Event}
use streamledger.Ledger.Events.{
  AccountOpened, FundsDeposited, FundsWithdrawn, event_account_opened, event_funds_deposited,
  event_funds_withdrawn, marshal_account_opened, marshal_funds_deposited, marshal_funds_withdrawn,
}
use streamledger.Ledger.Events.Codec.{
  unmarshal-marshal_account_opened, unmarshal-marshal_funds_deposited,
  unmarshal-marshal_funds_withdrawn,
}
use streamledger.Ledger.State.{
  AccountState, zero_account, apply_account, fold_account_from, fold_account,
}
use streamledger.Ledger.Decide.{decide_open_account, decide_deposit, decide_withdraw}

-- One more event is one more turn of the fold.
fold_account_from-snoc :
    (st : AccountState) (events : List Event) (e : Event)
    → fold_account_from st (events ++ e ∷ [])
      ≡ (fold_account_from st events >>= λ st'. apply_account st' e)
unfolding fold_account_from
fold_account_from-snoc st [] e = >>=-ok (apply_account st e)
fold_account_from-snoc st (x ∷ events) e = elim (Outcome-cases (apply_account st x)) [
  | inl (st', q) ↦ rw q (fold_account_from-snoc st' events e)
  | inr (_, q) ↦ rw q
]

pub fold_account-snoc :
    (id : String) (events : List Event) (e : Event)
    → fold_account id (events ++ e ∷ []) ≡ (fold_account id events >>= λ st. apply_account st e)
unfolding fold_account
fold_account-snoc id = fold_account_from-snoc (zero_account id)

module _ (st : AccountState) (e : Event) where
  -- A stored deposit is decoded and added.
  pub apply_account-deposited :
      (p : FundsDeposited)
      → IsInt64 p.amount_cents
      → e.event_type ≡ event_funds_deposited
      → e.payload ≡ marshal_funds_deposited p
      → apply_account st e
        ≡ ok (record st {
          version = e.version;
          balance_cents = add64 st.balance_cents p.amount_cents;
        })
  unfolding apply_account
  apply_account-deposited p h t c = rw (t, c) (rw (unmarshal-marshal_funds_deposited p h))

  pub apply_account-withdrawn :
      (p : FundsWithdrawn)
      → IsInt64 p.amount_cents
      → e.event_type ≡ event_funds_withdrawn
      → e.payload ≡ marshal_funds_withdrawn p
      → apply_account st e
        ≡ ok (record st {
          version = e.version;
          balance_cents = sub64 st.balance_cents p.amount_cents;
        })
  unfolding apply_account
  apply_account-withdrawn p h t c = rw (t, c) (rw (unmarshal-marshal_funds_withdrawn p h))

  pub apply_account-opened :
      (p : AccountOpened)
      → IsInt64 p.initial_balance_cents
      → e.event_type ≡ event_account_opened
      → e.payload ≡ marshal_account_opened p
      → apply_account st e
        ≡ ok (record st {
          version = e.version;
          opened = true;
          balance_cents = p.initial_balance_cents;
        })
  unfolding apply_account
  apply_account-opened p h t c = rw (t, c) (rw (unmarshal-marshal_account_opened p h))

-- A balance that an account may have: an int64 that is not negative.
abbrev pub IsSolvent : AccountState → Type 0
IsSolvent st = (pos 0 ≤ℤ st.balance_cents) × IsInt64 st.balance_cents

-- The event was decided from this state by one of the three account rules, and stored. A deposit
-- has room: the sum is still an int64.
pub data Decided (st : AccountState) (e : Event) : Type 0 where
  opens :
      (id : String) (initial : ℤ) (p : AccountOpened)
      → IsInt64 initial
      → decide_open_account st id initial ≡ ok p
      → e.event_type ≡ event_account_opened
      → e.payload ≡ marshal_account_opened p
      → Decided st e
  deposits :
      (amount : ℤ) (reason : String) (p : FundsDeposited)
      → IsInt64 amount
      → IsInt64 (st.balance_cents +ℤ amount)
      → decide_deposit st amount reason ≡ ok p
      → e.event_type ≡ event_funds_deposited
      → e.payload ≡ marshal_funds_deposited p
      → Decided st e
  withdraws :
      (amount : ℤ) (reason : String) (p : FundsWithdrawn)
      → decide_withdraw st amount reason ≡ ok p
      → e.event_type ≡ event_funds_withdrawn
      → e.payload ≡ marshal_funds_withdrawn p
      → Decided st e

-- An accepted withdrawal is positive and covered.
pub decide_withdraw-ok :
    (st : AccountState) (amount : ℤ) (reason : String) (p : FundsWithdrawn)
    → decide_withdraw st amount reason ≡ ok p
    → (st.opened ≡ true)
      × (pos 0 <ℤ amount)
      × (amount ≤ℤ st.balance_cents)
      × (p.amount_cents ≡ amount)
unfolding decide_withdraw
decide_withdraw-ok st amount reason p h = ground arith

pub decide_deposit-ok :
    (st : AccountState) (amount : ℤ) (reason : String) (p : FundsDeposited)
    → decide_deposit st amount reason ≡ ok p
    → (st.opened ≡ true) × (pos 0 <ℤ amount) × (p.amount_cents ≡ amount)
unfolding decide_deposit
decide_deposit-ok st amount reason p h = ground arith

pub decide_open_account-ok :
    (st : AccountState) (id : String) (initial : ℤ) (p : AccountOpened)
    → decide_open_account st id initial ≡ ok p
    → (st.opened ≡ false) × (pos 0 ≤ℤ initial) × (p.initial_balance_cents ≡ initial)
unfolding decide_open_account
decide_open_account-ok st id initial p h = ground arith

-- The balance after a decided event.
abbrev pub balance_after : {st : AccountState} {e : Event} → Decided st e → ℤ
balance_after (opens id initial p fits d t c) = initial
balance_after {st} (deposits amount reason p fits room d t c) = st.balance_cents +ℤ amount
balance_after {st} (withdraws amount reason p d t c) = st.balance_cents -ℤ amount

-- From a solvent state, an event that one of the account rules decided, and whose amount leaves room
-- for the sum, is decoded, moves the balance by exactly its amount, and leaves the account solvent.
pub Decided-IsSolvent :
    {st : AccountState} {e : Event} (d : Decided st e)
    → IsSolvent st
    → let st' = record st { version = e.version; opened = true; balance_cents = balance_after d } in
      (apply_account st e ≡ ok st') × IsSolvent st'
Decided-IsSolvent {st} {e} (opens id initial p fits d t c) h =
    let k = decide_open_account-ok st id initial p d in
    (rw (apply_account-opened st e p (rw k.2 fits) t c) (rw k.2), (k.1, fits))
Decided-IsSolvent {st} {e} (deposits amount reason p fits room d t c) h =
    let k = decide_deposit-ok st amount reason p d in
    (
      ground (
        arith,
        apply_account-deposited st e p (rw k.2 fits) t c,
        add64_exact st.balance_cents amount room,
      ),
      (omega int_laws, room),
    )
Decided-IsSolvent {st} {e} (withdraws amount reason p d t c) h =
    let k = decide_withdraw-ok st amount reason p d in
    let left = IsInt64-sub st.balance_cents amount h.1 (omega arith) k.2 in
    (
      ground (
        arith,
        apply_account-withdrawn st e p (rw k.3 left.0) t c,
        sub64_exact st.balance_cents amount left.1,
      ),
      (left.2, left.1),
    )

-- From a solvent state, an accepted and stored deposit of an int64 amount that takes the sum to 2^63
-- or more is replayed to a negative balance.
pub deposit_overflow :
    (st : AccountState) (amount : ℤ) (reason : String) (e : Event) (p : FundsDeposited)
    → IsSolvent st
    → IsInt64 amount
    → pos (2 ^ 63) ≤ℤ st.balance_cents +ℤ amount
    → decide_deposit st amount reason ≡ ok p
    → e.event_type ≡ event_funds_deposited
    → e.payload ≡ marshal_funds_deposited p
    → (st' : AccountState) × (apply_account st e ≡ ok st') × (st'.balance_cents <ℤ pos 0)
deposit_overflow st amount reason e p h fits over d t c =
    let k = decide_deposit-ok st amount reason p d in
    (
      record st { version = e.version; balance_cents = add64 st.balance_cents p.amount_cents },
      apply_account-deposited st e p (rw k.2 fits) t c,
      rw k.2 (add64_overflow st.balance_cents amount h.1 fits over),
    )
