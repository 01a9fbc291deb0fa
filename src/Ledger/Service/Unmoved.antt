-- ===== src/Ledger/Service/Unmoved.antt =====
-- Streams that were read earlier and whose version still fits.
use streamledger.Prelude.{
  ◌^◌, ◌<◌, ◌≡◌, ◌⊎◌, List, ◌++◌, arith, length, length-select-le, select-append, ℤ, ◌==◌,
}
use streamledger.Int64.{int64}
use streamledger.EventStore.{Event, StreamKey, stream_key_eq, key_of, no_version_check, stream}
use streamledger.Ledger.Interleaving.{Continues}
use streamledger.Ledger.Service.Attempt.{still_as_read}

pub still_there :
    (k : StreamKey) (before after events : List Event) (v : ℤ)
    → Continues before after
    → events ≡ stream k before
    → v ≡ int64 (length events)
    → (v ≡ no_version_check) ⊎ (v ≡ int64 (length (stream k after)))
    → length after < 2 ^ 63
    → stream k after ≡ events
still_there k before after events v (more, c) read version fits small =
    let now : stream k after ≡ events ++ stream k more =
      rw (c, read) (select-append (λ x. key_of x == k) before more) in
    let short : length (stream k after) < 2 ^ 63 =
      omega (arith, length-select-le (λ x. key_of x == k) after) in
    rw now (still_as_read events (stream k more) v version (rw now at fits) (rw now at short))
