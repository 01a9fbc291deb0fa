-- ===== src/EventStore/Numbering.antt =====
-- Events numbered one by one, by their version or by their global sequence number.
use streamledger.Prelude.{
  ℕ, suc, ◌+◌, ◌≡◌, List, [], ◌∷◌, ◌++◌, arith, length, ℤ, pos, ◌<ℤ◌, ◌^◌, ◌<◌, ◌∙◌,
}
use streamledger.Int64.{int64, int64-pos}
use streamledger.EventStore.{Event}

-- The events carry the numbers n + 1, n + 2, … as int64 counters.
abbrev pub Numbered : (Event → ℤ) → ℕ → List Event → Type 0
Numbered number n [] = Unit
Numbered number n (e ∷ events) = (number e ≡ int64 (suc n)) × Numbered number (suc n) events

-- The numbers of the events rise from one to the next, and all exceed the first bound.
abbrev pub Ascending : (Event → ℤ) → ℤ → List Event → Type 0
Ascending number v [] = Unit
Ascending number v (e ∷ events) = (v <ℤ number e) × Ascending number (number e) events

pub Numbered-Ascending :
    (number : Event → ℤ) (n : ℕ) (v : ℤ) (events : List Event)
    → n + length events < 2 ^ 63
    → v ≡ pos n
    → Numbered number n events
    → Ascending number v events
Numbered-Ascending number n v [] small q h = tt
Numbered-Ascending number n v (e ∷ events) small q h =
    let e_num : number e ≡ pos (suc n) = h.0 ∙ int64-pos (suc n) (omega arith) in
    (
      rw (q, e_num) (omega arith),
      Numbered-Ascending number (suc n) (number e) events (omega arith) e_num h.1,
    )

module _ (number : Event → ℤ) where
  pub Numbered-append :
      (n m : ℕ) (xs ys : List Event)
      → m ≡ n + length xs
      → Numbered number n xs
      → Numbered number m ys
      → Numbered number n (xs ++ ys)
  Numbered-append n m [] ys e h k = let p : m ≡ n = omega arith in rw p at k
  Numbered-append n m (x ∷ xs) ys e h k = (h.0, Numbered-append (suc n) m xs ys (omega arith) h.1 k)

  -- The last of n events after `start` carries `start` + n.
  pub Numbered-last :
      (n m : ℕ) (xs : List Event) (e : Event)
      → m ≡ n + length xs
      → Numbered number n (xs ++ e ∷ [])
      → number e ≡ int64 (suc m)
  Numbered-last n m [] e q h = let p : m ≡ n = omega arith in rw p h.0
  Numbered-last n m (x ∷ xs) e q h = Numbered-last (suc n) m xs e (omega arith) h.1
