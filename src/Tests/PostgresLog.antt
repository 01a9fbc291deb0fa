-- ===== src/Tests/PostgresLog.antt =====
-- The theorems on the Postgres log, on tables in which two events stand.
use streamledger.Prelude.{
  none, some, if◌then◌else◌, ◌≡◌, refl, true, Bool, [], ◌∷◌, ℤ, pos, lookup, insert, ◌+ℤ◌, ltb_ℤ,
  select, String,
}
use streamledger.Int64.{add64, wrap64, int64}
use streamledger.Outcome.{ok, err, version_conflict}
use streamledger.EventStore.{AppendEvent, StreamKey, stream}
use streamledger.EventStore.Postgres.{
  stream_events, events_since, query, collect, load_dedupe_events, reserve, link, insert_one,
  append_one, append_all, append_in, finish, append, load_stream, load_since, latest_global_seq,
  read_dedupe_events, lookup_dedupe,
}
use streamledger.EventStore.Postgres.Tables.{Tables, no_rows}
use streamledger.EventStore.Postgres.Invariant.{IsSound, no_rows-IsSound, log_of}
use streamledger.EventStore.Postgres.Queries.{reads_exact, Latest, Looked}
use streamledger.EventStore.Postgres.Reads.{Brought}
use streamledger.EventStore.Postgres.Fulfils.{append-IsSound}
use streamledger.EventStore.Memory.Since.{page}
use streamledger.Tests.World.{deposit_event}
use streamledger.Tests.Database.{answer, same_document, tables_database, tables_Serves}

unfoldable pub running_sql : Bool
unfolding add64 wrap64 int64 ◌+ℤ◌ lookup insert query collect load_dedupe_events reserve link
    insert_one append_one append_all append_in finish append load_stream load_since
    latest_global_seq read_dedupe_events lookup_dedupe answer
running_sql = true

-- The tables after a first deposit under the key "k1".
abbrev pub one_deposit : Tables
one_deposit = (append tables_database "k1" (deposit_event ∷ []) no_rows).1

pub one_deposit-IsSound : IsSound one_deposit
one_deposit-IsSound =
    append-IsSound tables_database same_document tables_Serves "k1" (deposit_event ∷ []) no_rows
      no_rows-IsSound

-- The same key again is a duplicate.
again_lem :
    append tables_database "k1" (deposit_event ∷ []) one_deposit
    ≡ (ok (log_of one_deposit, true), one_deposit)
unfolding running_sql
again_lem = refl

abbrev checked : AppendEvent
checked = record deposit_event { expected_version = pos 7 }

conflict_lem :
    append tables_database "k2" (deposit_event ∷ checked ∷ []) one_deposit
    ≡ (err version_conflict, one_deposit)
unfolding running_sql
conflict_lem = refl

reads_exact_example :
    ((k : StreamKey)
      → Brought
          (tables_database.read (stream_events k) one_deposit)
          (load_stream tables_database k.aggregate_type k.aggregate_id one_deposit)
          (stream k (log_of one_deposit)))
    × ((after limit : ℤ)
        → Brought
            (tables_database.read
              (events_since after (if ltb_ℤ (pos 0) limit then some limit else none))
              one_deposit)
            (load_since tables_database after limit one_deposit)
            (page limit (select (λ e. ltb_ℤ after e.global_seq) (log_of one_deposit))))
    × Latest tables_database same_document tables_Serves one_deposit
        (latest_global_seq tables_database one_deposit)
    × ((d : String)
        → Looked tables_database same_document tables_Serves d one_deposit
            (lookup_dedupe tables_database d one_deposit))
reads_exact_example =
    reads_exact tables_database same_document tables_Serves one_deposit one_deposit-IsSound
