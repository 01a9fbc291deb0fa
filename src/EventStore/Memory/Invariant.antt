-- ===== src/EventStore/Memory/Invariant.antt =====
-- The invariant of the in-process log: the counters agree with the events, and the cache of
-- processed keys with the events that each key produced.
use streamledger.Prelude.{
  ℕ, suc, ◌≡◌, ◌≢◌, refl, ap, sym, inl, inr, none, List, [], ◌∷◌, ◌++◌, String, arith,
  if◌then◌else◌, Bool-cases, select-append, All, ◌==◌, string_eq, eq_iff, lookup, lookup_or, insert,
  lookup-insert,
}
use mathlib.Core.List.{append-nil}
use streamledger.Int64.{int64, wrap64}
use streamledger.EventStore.{Time, AppendEvent, Event, stream_key_eq, produced_under}
use streamledger.EventStore.Memory.{
  MemoryStore, new, prior_events, write, write_all, remember, commit, append,
}
use streamledger.EventStore.Memory.Counting.{IsCounted, write_all-IsCounted, events-write_all}
use streamledger.EventStore.Memory.Cases.{append-cases}

pub record IsValid (s : MemoryStore) : Type 0 where
  pub counted : IsCounted s
  pub remembered : (d : String) → d ≢ "" → lookup_or [] d s.dedupe ≡ produced_under d s.events

pub new-IsValid : (now : ℕ → Time) → IsValid (new now)
unfolding lookup int64 wrap64
new-IsValid now = record {
  counted = record { total = refl; sequenced = tt; current = λ k. refl; versioned = λ k. tt };
  remembered = λ d ne. refl;
}

module _ (d : String) (now : Time) where
  dedupe-write_all :
      (batch : List AppendEvent) (s : MemoryStore) → (write_all d now batch s).1.dedupe ≡ s.dedupe
  unfolding write_all write
  dedupe-write_all [] s = refl
  dedupe-write_all (e ∷ batch) s = dedupe-write_all batch (write d now e s).1

  marked-write_all :
      (batch : List AppendEvent) (s : MemoryStore)
      → All (λ (e : Event). e.metadata.dedupe_key ≡ d) (write_all d now batch s).0
  unfolding write_all write
  marked-write_all [] s = tt
  marked-write_all (e ∷ batch) s = (refl, marked-write_all batch (write d now e s).1)

module _ (d : String) where
  produced_under_self :
      (xs : List Event)
      → All (λ (e : Event). e.metadata.dedupe_key ≡ d) xs
      → produced_under d xs ≡ xs
  produced_under_self [] h = refl
  produced_under_self (x ∷ xs) h =
      ground (arith, eq_iff x.metadata.dedupe_key d, produced_under_self xs h.1)

  produced_under_ne :
      (c : String) (xs : List Event)
      → c ≢ d
      → All (λ (e : Event). e.metadata.dedupe_key ≡ d) xs
      → produced_under c xs ≡ []
  produced_under_ne c [] ne h = refl
  produced_under_ne c (x ∷ xs) ne h =
      ground (arith, eq_iff x.metadata.dedupe_key c, produced_under_ne c xs ne h.1)

-- A batch that is written: what is returned is what the log gained.
pub events-commit :
    (d : String) (batch : List AppendEvent) (s : MemoryStore)
    → (commit d batch s).1.events ≡ s.events ++ (commit d batch s).0
unfolding commit remember
events-commit d batch s = elim (Bool-cases (d == "")) [
  | inl empty ↦ rw empty (events-write_all d _ batch _)
  | inr key ↦ rw key (events-write_all d _ batch _)
]

remember-IsCounted :
    (d : String) (produced : List Event) (s : MemoryStore)
    → IsCounted s
    → IsCounted (remember d produced s)
unfolding remember
remember-IsCounted d produced s h = elim (Bool-cases (d == "")) [
  | inl empty ↦ rw empty h
  | inr key ↦ rw key (record {
    total = h.total;
    sequenced = h.sequenced;
    current = h.current;
    versioned = h.versioned;
  })
]

pub commit-IsCounted :
    (d : String) (batch : List AppendEvent) (s : MemoryStore)
    → IsCounted s
    → IsCounted (commit d batch s).1
unfolding commit
commit-IsCounted d batch s h = remember-IsCounted d _ _ (
    write_all-IsCounted d _ batch _ (record {
      total = h.total;
      sequenced = h.sequenced;
      current = h.current;
      versioned = h.versioned;
    }))

-- Each key's events before and after a batch that was written under `d`.
produced_under-commit :
    (c d : String) (batch : List AppendEvent) (s : MemoryStore)
    → produced_under c (commit d batch s).1.events ≡ (
        if d == c
        then produced_under c s.events ++ (commit d batch s).0
        else produced_under c s.events)
unfolding commit
produced_under-commit c d batch s =
    let xs = (commit d batch s).0 in
    let marked =
      marked-write_all d (s.now s.readings) batch (record s { readings = suc s.readings }) in
    rw (events-commit d batch s) (
      rw (select-append (λ (e : Event). e.metadata.dedupe_key == c) s.events xs)
        (elim (Bool-cases (d == c)) [
          | inl same ↦ ground (arith, eq_iff d c, produced_under_self d xs marked)
          | inr other ↦ ground (
            arith,
            eq_iff d c,
            produced_under_ne d c xs,
            marked,
            append-nil (produced_under c s.events),
          )
        ]))

dedupe-commit :
    (d : String) (batch : List AppendEvent) (s : MemoryStore)
    → (commit d batch s).1.dedupe
      ≡ (if d == "" then s.dedupe else insert d (commit d batch s).0 s.dedupe)
unfolding commit remember
dedupe-commit d batch s =
    let old =
      dedupe-write_all d (s.now s.readings) batch (record s { readings = suc s.readings }) in
    elim (Bool-cases (d == "")) [
      | inl empty ↦ rw empty old
      | inr key ↦ rw key (ap (insert d _) old)
    ]

commit-remembered :
    (c d : String) (batch : List AppendEvent) (s : MemoryStore)
    → IsValid s
    → prior_events d s ≡ none
    → c ≢ ""
    → lookup_or [] c (commit d batch s).1.dedupe ≡ produced_under c (commit d batch s).1.events
unfolding prior_events
commit-remembered c d batch s h fresh ne = rw (produced_under-commit c d batch s) (
    rw (dedupe-commit d batch s) (
      ground (
        arith,
        lookup-insert d c (commit d batch s).0 s.dedupe,
        h.remembered c ne,
        h.remembered d,
        eq_iff d "",
        eq_iff d c,
      )))

pub commit-IsValid :
    (d : String) (batch : List AppendEvent) (s : MemoryStore)
    → IsValid s
    → prior_events d s ≡ none
    → IsValid (commit d batch s).1
commit-IsValid d batch s h fresh = record {
  counted = commit-IsCounted d batch s h.counted;
  remembered = λ c ne. commit-remembered c d batch s h fresh ne;
}

-- A valid store is valid after any call of `Append`, whatever its outcome.
pub append-IsValid :
    (d : String) (batch : List AppendEvent) (s : MemoryStore)
    → IsValid s
    → IsValid (append d batch s).1
append-IsValid d batch s h = elim (append-cases d batch s) [
  | inl (prior, _, e) ↦ rw e h
  | inr (inl (x, _, _, e)) ↦ rw e h
  | inr (inr (fresh, _, e)) ↦ rw e (commit-IsValid d batch s h fresh)
]

-- Every call of `Append` continues the log.
pub append-Continues :
    (d : String) (batch : List AppendEvent) (s : MemoryStore)
    → (more : List Event) × ((append d batch s).1.events ≡ s.events ++ more)
append-Continues d batch s = elim (append-cases d batch s) [
  | inl (prior, _, e) ↦ ([], rw e (sym (append-nil s.events)))
  | inr (inl (x, _, _, e)) ↦ ([], rw e (sym (append-nil s.events)))
  | inr (inr (fresh, _, e)) ↦ ((commit d batch s).0, rw e (events-commit d batch s))
]
