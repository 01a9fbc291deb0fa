-- ===== src/Projections/Behind.antt =====
-- How far a projector is behind the log (`Lag` of internal/projections/projector.go).
use streamledger.Prelude.{
  ℕ, ◌-◌, ◌<◌, ◌≤◌, ◌^◌, ◌≡◌, ap, inl, inr, true, false, Bool-cases, arith, pos, ltb_ℤ, ◌-ℤ◌,
  -ℤ_parts,
}
use streamledger.Int64.{sub64, sub64_exact}
use streamledger.Outcome.{ok}
use streamledger.Projections.Projector.{Projector, lag}

behind : (a b : ℕ) → a < 2 ^ 63 → b < 2 ^ 63 → sub64 (pos a) (pos b) ≡ pos a -ℤ pos b
unfolding ◌-ℤ◌
behind a b ha hb = sub64_exact (pos a) (pos b) (ground arith)

not_behind : (a b : ℕ) → ltb_ℤ (pos a -ℤ pos b) (pos 0) ≡ true → a ≤ b
not_behind a b h = ground (arith, -ℤ_parts (pos a) (pos b))

difference : (a b : ℕ) → ltb_ℤ (pos a -ℤ pos b) (pos 0) ≡ false → pos a -ℤ pos b ≡ pos (a - b)
unfolding ◌-ℤ◌
difference a b h = ground arith

-- Where the log's latest number and the checkpoint are int64 numbers and not negative, the lag is
-- the number of numbers between them, and 0 where the checkpoint is ahead; the store is left alone.
pub lag_exact :
    {S : Type 0} (p : Projector S) (latest checkpoint : ℕ) (s : S)
    → latest < 2 ^ 63
    → checkpoint < 2 ^ 63
    → p.store.get_checkpoint p.name s ≡ ok (pos checkpoint)
    → lag p (pos latest) s ≡ (ok (pos (latest - checkpoint)), s)
unfolding lag
lag_exact p latest checkpoint s a b h =
    rw (h, behind latest checkpoint a b)
      (elim (Bool-cases (ltb_ℤ (pos latest -ℤ pos checkpoint) (pos 0))) [
        | inl ahead ↦
            rw ahead (ap (λ n. (ok (pos n), s)) (omega (arith, not_behind latest checkpoint ahead)))
        | inr even ↦ rw even (ap (λ z. (ok z, s)) (difference latest checkpoint even))
      ])
