-- ===== src/EventStore/Memory/Validation.antt =====
-- The first loop of `Append` (internal/eventstore/memory/store.go), which works on the cached
-- versions and on a map of what the batch itself will add, against the admissible batches.
use streamledger.Prelude.{
  ◌≡◌, ◌⊎◌, ◌↔◌, inl, inr, refl, none, some, Bool, true, false, List, [], ◌∷◌, arith, ℤ, pos, eqb_ℤ,
  Map, lookup, lookup_or, insert, lookup-insert, Bool-cases, not, ◌&&◌,
}
use streamledger.Int64.{add64, int64, inc64-int64}
use streamledger.Outcome.{ok, err, version_conflict}
use streamledger.EventStore.{
  AppendEvent, StreamKey, stream_key_eq, stream_key_beq_iff, target, no_version_check,
}
use streamledger.EventStore.Contract.{Lengths, lengths, grow, Expects, Admissible}
use streamledger.EventStore.Memory.{MemoryStore, validate}
use streamledger.EventStore.Memory.Counting.{IsCounted}

-- The version that the loop goes by for a stream.
abbrev seen_version : Map StreamKey ℤ → Map StreamKey ℤ → StreamKey → ℤ
seen_version versions pending k = elim (lookup k pending) [
  | some seen ↦ seen
  | none ↦ lookup_or (pos 0) k versions
]

-- The test of the loop.
abbrev is_conflict : ℤ → ℤ → Bool
is_conflict x cur = not (eqb_ℤ x no_version_check) && not (eqb_ℤ x cur)

conflict_test : (x cur : ℤ) → (is_conflict x cur ≡ false) ↔ ((x ≡ no_version_check) ⊎ (x ≡ cur))
conflict_test x cur = (λ h. ground arith, λ h. ground arith)

refuse_conflict :
    (e : AppendEvent) (cur : ℤ) (len : Lengths)
    → cur ≡ int64 (len (target e))
    → is_conflict e.expected_version cur ≡ true
    → ¬ Expects len e
refuse_conflict e cur len h c fits =
    let f : is_conflict e.expected_version cur ≡ false =
      (conflict_test e.expected_version cur).1 (rw h fits) in
    cc

module _ (versions : Map StreamKey ℤ) where
  abbrev Tracks : Map StreamKey ℤ → Lengths → Type 0
  Tracks pending len = (k : StreamKey) → seen_version versions pending k ≡ int64 (len k)

  Tracks-grow :
      (pending : Map StreamKey ℤ) (len : Lengths) (j : StreamKey)
      → Tracks pending len
      → Tracks (insert j (add64 (seen_version versions pending j) (pos 1)) pending) (grow j len)
  Tracks-grow pending len j h k = ground (
    arith,
    lookup-insert j k (add64 (seen_version versions pending j) (pos 1)) pending,
    inc64-int64 (len k),
    h j,
    h k,
    stream_key_beq_iff j k,
  )

  -- The loop accepts a batch exactly when it is admissible, and otherwise reports a conflict.
  validate-Admissible :
      (batch : List AppendEvent) (pending : Map StreamKey ℤ) (len : Lengths)
      → Tracks pending len
      → ((validate versions pending batch ≡ ok tt) × Admissible len batch)
        ⊎ ((validate versions pending batch ≡ err version_conflict) × (¬ Admissible len batch))
  unfolding validate
  validate-Admissible [] pending len h = inl (refl, tt)
  validate-Admissible (e ∷ batch) pending len h =
      let cur = seen_version versions pending (target e) in
      let test = conflict_test e.expected_version cur in
      let cur_len = h (target e) in
      elim (Bool-cases (is_conflict e.expected_version cur)) [
        | inl conflict ↦ inr (rw conflict, λ a. refuse_conflict e cur len cur_len conflict a.0)
        | inr fits ↦
            elim (validate-Admissible batch (insert (target e) (add64 cur (pos 1)) pending)
              (grow (target e) len) (Tracks-grow pending len (target e) h)) [
                | inl (v, a) ↦ inl (rw fits v, (rw cur_len at (test.0 fits), a))
                | inr (v, a) ↦ inr (rw fits v, λ b. a b.1)
              ]
      ]

Tracks-start : (s : MemoryStore) → IsCounted s → Tracks s.versions [] (lengths s.events)
unfolding lookup
Tracks-start s h k = h.current k

-- On a store whose version counters are right, the check of `Append` accepts the admissible batches
-- (each event expects no version, or the length of its stream at its own turn in the batch) and
-- reports a version conflict for every other batch.
pub validate_exact :
    (s : MemoryStore) (batch : List AppendEvent)
    → IsCounted s
    → ((validate s.versions [] batch ≡ ok tt) × Admissible (lengths s.events) batch)
      ⊎ ((validate s.versions [] batch ≡ err version_conflict)
          × (¬ Admissible (lengths s.events) batch))
validate_exact s batch h =
    validate-Admissible s.versions batch [] (lengths s.events) (Tracks-start s h)
