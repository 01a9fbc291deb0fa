-- ===== src/Ledger/Transfer/Legs.antt =====
-- The two legs of a transfer in the log.
use mathlib.Core.List.{append_assoc}
use streamledger.Prelude.{
  ◌≡◌, ◌≢◌, refl, sym, ap, ◌∙◌, false, List, [], ◌∷◌, ◌++◌, String, arith, ◌==◌, eq_iff,
}
use streamledger.EventStore.{AppendEvent, Event, StreamKey, stream_key_eq, key_of, stream}
use streamledger.EventStore.Streams.{stream-snoc_self, stream-snoc_ne}
use streamledger.EventStore.Contract.{Records, Recorded}
use streamledger.Ledger.Solvency.{account_key}

-- Two events at once: the streams of two accounts each grow by one.
module _ (from_id to_id : String) (apart : from_id ≢ to_id) (before : List Event) (out back : Event)
    (k₁ : key_of out ≡ account_key from_id) (k₂ : key_of back ≡ account_key to_id) where
  split : before ++ out ∷ back ∷ [] ≡ (before ++ out ∷ []) ++ back ∷ []
  split = sym (append_assoc before (out ∷ []) (back ∷ []))

  pub keys_apart : account_key from_id ≢ account_key to_id
  keys_apart p = apart (ap (λ (x : StreamKey). x.aggregate_id) p)

  pub stream_from :
      stream (account_key from_id) (before ++ out ∷ back ∷ [])
      ≡ stream (account_key from_id) before ++ out ∷ []
  stream_from = rw split (
      stream-snoc_ne (account_key from_id) (before ++ out ∷ []) back (λ p. keys_apart (sym p ∙ k₂))
      ∙ stream-snoc_self (account_key from_id) before out k₁)

  pub stream_to :
      stream (account_key to_id) (before ++ out ∷ back ∷ [])
      ≡ stream (account_key to_id) before ++ back ∷ []
  stream_to = rw split (
      stream-snoc_self (account_key to_id) (before ++ out ∷ []) back k₂
      ∙ ap (λ l. l ++ back ∷ [])
          (stream-snoc_ne (account_key to_id) before out (λ p. keys_apart (sym k₁ ∙ p))))

pub keys_differ :
    (from_id to_id : String) → from_id ≢ to_id → (account_key from_id == account_key to_id) ≡ false
keys_differ from_id to_id apart = ground (arith, eq_iff from_id to_id)

pub Recorded-two :
    (d : String) (a b : AppendEvent) (produced : List Event)
    → Recorded d (a ∷ b ∷ []) produced
    → (e : Event) × (f : Event) × (produced ≡ e ∷ f ∷ []) × Records d a e × Records d b f
Recorded-two d a b [] h = absurd h
Recorded-two d a b (e ∷ []) h = absurd h.1
Recorded-two d a b (e ∷ f ∷ []) h = (e, f, refl, h.0, h.1.0)
Recorded-two d a b (e ∷ f ∷ g ∷ produced) h = absurd h.1.1
