-- ===== src/EventStore/Memory/Counting.antt =====
-- The counters of the in-process log (`globalSeq`, `versions`) and the numbers on its events, under
-- the writing loop of `Append`.
use streamledger.Prelude.{
  suc, ◌≡◌, sym, ◌∙◌, inl, inr, List, [], ◌∷◌, ◌++◌, String, arith, Bool-cases, length,
  length-append, pos, ◌==◌, string_eq, lookup_or, lookup-insert,
}
use mathlib.Core.List.{append-nil, append_assoc}
use streamledger.Int64.{int64, inc64-int64}
use streamledger.EventStore.{
  Time, AppendEvent, Event, StreamKey, stream_key_eq, stream_key_beq_iff, target, stream,
}
use streamledger.EventStore.Streams.{stream-snoc}
use streamledger.EventStore.Numbering.{Numbered, Numbered-append}
use streamledger.EventStore.Memory.{MemoryStore, write, write_all}

-- Global sequence numbers run from 1 without gaps, so do the versions of every stream, and the
-- cached counters are those of the events.
pub record IsCounted (s : MemoryStore) : Type 0 where
  pub total : s.global_seq ≡ int64 (length s.events)
  pub sequenced : Numbered (λ e. e.global_seq) 0 s.events
  pub current :
      (k : StreamKey) → lookup_or (pos 0) k s.versions ≡ int64 (length (stream k s.events))
  pub versioned : (k : StreamKey) → Numbered (λ e. e.version) 0 (stream k s.events)

length-snoc : (xs : List Event) (e : Event) → length (xs ++ e ∷ []) ≡ suc (length xs)
length-snoc xs e = omega (arith, length-append xs (e ∷ []))

module _ (d : String) (now : Time) (e : AppendEvent) (s : MemoryStore) (h : IsCounted s) where
  write-total : (write d now e s).1.global_seq ≡ int64 (length (write d now e s).1.events)
  unfolding write
  write-total = rw (length-snoc, h.total) (inc64-int64 _)

  write-sequenced : Numbered (λ x. x.global_seq) 0 (write d now e s).1.events
  unfolding write
  write-sequenced =
      Numbered-append _ 0 (length s.events) s.events _ (omega arith) h.sequenced
        (rw h.total (inc64-int64 _), tt)

  write-current :
      (k : StreamKey)
      → lookup_or (pos 0) k (write d now e s).1.versions
        ≡ int64 (length (stream k (write d now e s).1.events))
  unfolding write
  write-current k = ground (
    arith,
    lookup-insert (target e) k (write d now e s).0.version s.versions,
    stream-snoc k s.events (write d now e s).0,
    length-snoc (stream k s.events) (write d now e s).0,
    inc64-int64 (length (stream k s.events)),
    h.current k,
    stream_key_beq_iff (target e) k,
  )

  write-versioned :
      (k : StreamKey) → Numbered (λ x. x.version) 0 (stream k (write d now e s).1.events)
  unfolding write
  write-versioned k = rw stream-snoc (elim (Bool-cases (target e == k)) [
    | inl same ↦ rw same (
        Numbered-append _ 0 (length (stream k s.events)) _ _ (omega arith) (h.versioned k) (
          ground (
            arith,
            inc64-int64 (length (stream k s.events)),
            h.current k,
            stream_key_beq_iff (target e) k,
          ),
          tt,
        ))
    | inr other ↦ rw other (h.versioned k)
  ])

pub write-IsCounted :
    (d : String) (now : Time) (e : AppendEvent) (s : MemoryStore)
    → IsCounted s
    → IsCounted (write d now e s).1
write-IsCounted d now e s h = record {
  total = write-total d now e s h;
  sequenced = write-sequenced d now e s h;
  current = write-current d now e s h;
  versioned = write-versioned d now e s h;
}

module _ (d : String) (now : Time) where
  pub write_all-IsCounted :
      (batch : List AppendEvent) (s : MemoryStore)
      → IsCounted s
      → IsCounted (write_all d now batch s).1
  unfolding write_all
  write_all-IsCounted [] s h = h
  write_all-IsCounted (e ∷ batch) s h =
      write_all-IsCounted batch (write d now e s).1 (write-IsCounted d now e s h)

  -- The log grows by the events that are returned.
  pub events-write_all :
      (batch : List AppendEvent) (s : MemoryStore)
      → (write_all d now batch s).1.events ≡ s.events ++ (write_all d now batch s).0
  unfolding write_all write
  events-write_all [] s = sym (append-nil _)
  events-write_all (e ∷ batch) s =
      events-write_all batch (write d now e s).1
      ∙ append_assoc s.events ((write d now e s).0 ∷ []) _
