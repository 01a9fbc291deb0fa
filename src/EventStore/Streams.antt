-- ===== src/EventStore/Streams.antt =====
-- The streams of a log that grows by one event.
use streamledger.Prelude.{◌≡◌, ◌≢◌, refl, List, [], ◌∷◌, ◌++◌, arith, if◌then◌else◌, ◌==◌}
use streamledger.EventStore.{Event, StreamKey, stream_key_eq, stream_key_beq_iff, key_of, stream}

-- A stream grows by the events of its own key alone.
pub stream-snoc :
    (k : StreamKey) (xs : List Event) (e : Event)
    → stream k (xs ++ e ∷ []) ≡ (if key_of e == k then stream k xs ++ e ∷ [] else stream k xs)
stream-snoc k [] e = refl
stream-snoc k (x ∷ xs) e = ground (arith, stream-snoc k xs e)

pub stream-snoc_self :
    (k : StreamKey) (xs : List Event) (e : Event)
    → key_of e ≡ k
    → stream k (xs ++ e ∷ []) ≡ stream k xs ++ e ∷ []
stream-snoc_self k xs e h = ground (arith, stream-snoc k xs e, stream_key_beq_iff (key_of e) k)

pub stream-snoc_ne :
    (k : StreamKey) (xs : List Event) (e : Event)
    → key_of e ≢ k
    → stream k (xs ++ e ∷ []) ≡ stream k xs
stream-snoc_ne k xs e h = ground (arith, stream-snoc k xs e, stream_key_beq_iff (key_of e) k)
