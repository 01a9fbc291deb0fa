-- ===== src/Prelude/Keys.antt =====
-- Comparable keys, and Go's `map` as an association list with at most one entry read per key.
-- The program never ranges over a map whose order it observes through these functions.
use Prim.Native.String.{String}
use mathlib.Core.Path.{◌≡◌, refl}
use mathlib.Core.Logic.{◌↔◌}
use mathlib.Core.Bool.{Bool, true}
use mathlib.Core.List.{List, [], ◌∷◌}
use mathlib.Core.Option.{Option, none, some}
use native.Mathlib.Omega.{arith}
use text.Mathlib.Text.{◌==◌ as str_eq}
use text.Mathlib.TextEquality.{eq_iff}
use streamledger.Prelude.Tests.{if◌then◌else◌}

-- A decidable key: the test answers true exactly on equal keys.
pub record Eq {ℓ} (K : Type ℓ) : Type ℓ where
  pub beq : K → K → Bool
  pub beq_iff : (x y : K) → (beq x y ≡ true) ↔ (x ≡ y)

pub beq_refl {ℓ} : {K : Type ℓ} ⦃e : Eq K⦄ (x : K) → e.beq x x ≡ true
beq_refl ⦃e⦄ x = (e.beq_iff x x).1 refl

instance abbrev pub string_eq : Eq String
string_eq = record { beq = str_eq; beq_iff = eq_iff }

infix 50 ◌==◌
abbrev pub ◌==◌ {ℓ} : {K : Type ℓ} ⦃e : Eq K⦄ → K → K → Bool
◌==◌ ⦃e⦄ = e.beq

abbrev pub Map {ℓ} : Type ℓ → Type ℓ → Type ℓ
Map K V = List (K × V)

module _ {ℓ} {K V : Type ℓ} ⦃e : Eq K⦄ where
  -- `v, ok := m[k]`
  unfoldable pub lookup : K → Map K V → Option V
  lookup k [] = none
  lookup k ((j, v) ∷ m) = if j == k then some v else lookup k m

  -- `m[k] = v`
  unfoldable pub insert : K → V → Map K V → Map K V
  insert key new [] = (key, new) ∷ []
  insert key new ((other, old) ∷ rest) =
      if other == key then (key, new) ∷ rest else (other, old) ∷ insert key new rest

  -- `m[k]` where a missing key reads as the zero value
  abbrev pub lookup_or : V → K → Map K V → V
  lookup_or d k m = elim (lookup k m) [ none ↦ d | some v ↦ v ]

  pub lookup-insert :
      (key read : K) (new : V) (m : Map K V)
      → lookup read (insert key new m) ≡ (if key == read then some new else lookup read m)
  unfolding lookup insert
  lookup-insert key read new [] = refl
  lookup-insert key read new ((other, old) ∷ rest) = ground (
    arith,
    e.beq_iff key read,
    e.beq_iff other key,
    e.beq_iff other read,
    lookup-insert key read new rest,
  )
