-- ===== src/Outcome.antt =====
-- Go's `(value, error)` results: errors are values, and an error ends a chain of steps.
-- The sentinel errors are those of internal/eventstore/eventstore.go and internal/ledger/errors.go.
use streamledger.Prelude.{◌≡◌, refl, ◌⊎◌, inl, inr, Bool, true, false, String}

pub data Error : Type 0 where
  -- eventstore.ErrVersionConflict, eventstore.ErrStreamNotFound
  version_conflict stream_not_found : Error
  -- the business-rule errors of package ledger
  invalid_amount invalid_quantity account_already_opened account_not_open : Error
  insufficient_funds insufficient_stock same_account_transfer : Error
  -- json.Unmarshal's errors
  bad_json : Error
  -- fmt.Errorf("decode %s: %w", …) and fmt.Errorf("unknown … event type %q", …)
  decode unknown_event_type : String → Error
  -- a run-time panic: an index out of range
  index_out_of_range : Error
  -- whatever else a storage or bus implementation reports
  external : String → Error

pub data Outcome {ℓ} (A : Type ℓ) : Type ℓ where
  ok : A → Outcome A
  err : Error → Outcome A

infixl 10 ◌>>=◌
abbrev pub ◌>>=◌ {ℓ κ} : {A : Type ℓ} {B : Type κ} → Outcome A → (A → Outcome B) → Outcome B
ok a >>= f = f a
err e >>= f = err e

-- `errors.Is(err, eventstore.ErrVersionConflict)`
abbrev pub is_version_conflict : Error → Bool
is_version_conflict version_conflict = true
is_version_conflict _ = false

-- fmt.Errorf("…: %w", err) with another error in its place
abbrev pub wrap_error {ℓ} : {A : Type ℓ} → Error → Outcome A → Outcome A
wrap_error e (ok a) = ok a
wrap_error e (err _) = err e

pub Outcome-cases {ℓ} :
    {A : Type ℓ} (r : Outcome A) → ((a : A) × (r ≡ ok a)) ⊎ ((e : Error) × (r ≡ err e))
Outcome-cases (ok a) = inl (a, refl)
Outcome-cases (err e) = inr (e, refl)

-- A chain that succeeds has succeeded at its first link.
pub >>=-eq-ok {ℓ κ} :
    {A : Type ℓ} {B : Type κ} (first : Outcome A) (then_ : A → Outcome B) {end : B}
    → (first >>= then_) ≡ ok end
    → (middle : A) × (first ≡ ok middle) × (then_ middle ≡ ok end)
>>=-eq-ok (ok middle) then_ p = (middle, refl, p)
>>=-eq-ok (err _) then_ p = cc

pub >>=-ok {ℓ} : {A : Type ℓ} (m : Outcome A) → (m >>= ok) ≡ m
>>=-ok (ok a) = refl
>>=-ok (err e) = refl
