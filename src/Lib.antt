-- ===== src/Lib.antt =====
-- StreamLedger: an event-sourced ledger of accounts and inventory items.
--
-- The program has an event log (internal/eventstore), command handlers that decide and append events
-- (internal/ledger), a bus that hands the new events on (internal/bus), and projections that fold
-- them into views (internal/projections). A handler loads the stream of an aggregate, folds it into a
-- state, applies a business rule, and appends the resulting event with the version that it saw; when
-- another client was faster, the log reports a version conflict and the handler starts over. An
-- idempotency key makes a repeated command report what the first one did.
--
--   Prelude/*            tests, lists, integers, comparable keys and maps: Go's, in this language
--   Int64                int64 values as integers, with wrap-around written out (wrap64, add64, sub64);
--                        counters that Go keeps as int64 are int64 n for the natural number n
--   Outcome              the errors of internal/ledger/errors.go and internal/eventstore/eventstore.go,
--                        and results that may be errors
--   Action               steps on a state that may fail
--   Sql                  the driver of a PostgreSQL database (Connection), and its promises (Keeps)
--   Json                 the JSON values that the payloads are made of
--   EventStore           internal/eventstore/eventstore.go: events, the store interface (Store)
--   EventStore/Contract  what a client relies on: an append is atomic, checked against the lengths of
--                        the streams, and answers a known key with the events of that key (Lawful)
--   EventStore/Memory    internal/eventstore/memory/store.go: New, WithClock, Append, LookupDedupe,
--                        LoadStream, LoadSince, LatestGlobalSeq; Append is cut into its dedupe check
--                        (prior_events), its version check (validate) and its writes (commit)
--   EventStore/Postgres  internal/eventstore/postgres/store.go: each SQL statement is a constructor of
--                        Statement. Append is cut into reserve (the key), append_one (the loop's body)
--                        and finish (the commit). Tables says what the statements do to the tables,
--                        Invariant what holds of these, Fulfils and Queries what the methods promise,
--                        and Causes why Append reports an error
--   Ledger/Events        internal/ledger/events.go: payloads, and their JSON form by the struct tags
--   Ledger/State         internal/ledger/state.go: FoldAccount, FoldInventory
--   Ledger/Decide        internal/ledger/decide.go: the six business rules
--   Ledger/Command       the calls that a handler makes on the store, and the other clients
--   Ledger/Service       internal/ledger/service.go: OpenAccount, Deposit, Withdraw, Transfer,
--                        AdjustInventory, ReserveStock, ReleaseStock. The five commands on one stream
--                        that retry have one body (run_command, retry, settle), and differ in what
--                        they propose (deposit_proposal and so on)
--   Ledger/Account, Ledger/Inventory       the rules and the folds together
--   Ledger/Guarantees, Ledger/Transfer     the handlers among other clients
--   Projections          internal/projections/projections.go: the views and the store interface
--   Projections/Memory, /Appliers, /Projector   memory/store.go, account_applier.go and
--                        inventory_applier.go, projector.go beside it. Showing says what it takes for
--                        views to follow a log; Mirror (accounts) and Stock (inventory) fill it in
--   Projections/Postgres internal/projections/postgres/store.go: a Session is the pool and the
--                        transaction that the context carries. Calls, Follows, Body, Closing and Units
--                        compare its calls, a projector's steps and its units of work with the
--                        in-process ones
--   Bus                  internal/bus/bus.go, duplicator.go and inmemory/bus.go
--   Bus/Nats             internal/bus/natsbus/bus.go: the wire format (Wire), Publish, and the callback
--                        of Subscribe (receive), with the server as a parameter (Relay)
--   GrpcServer           internal/grpcserver/server.go, on the fields of the requests
--   Startup              cmd/streamledger/main.go: buildStorage, buildBus, the frame of run and
--                        subscribeAndCatchUp, with Connect and Migrate of the two Postgres packages and Connect of natsbus
--   Tests                runs at concrete inputs
--
-- A handler runs on a World: the store, the number of calls so far, and the batches published. Other
-- clients are a function Others that changes the store before each call; Respects says that they keep
-- it valid and only append. A method of the in-memory store holds its mutex from beginning to end, so
-- it is one step. What is said of handlers among other clients is said of every store that fulfils the
-- contract (Lawful): of the in-memory one by memory_lawful, and by postgres_lawful of the Postgres one
-- if no connection is lost during a COMMIT and if JSONB keeps the order of the keys (it does not, and
-- no decoder reads it). A command is silent when it changes and publishes nothing and reports an error
-- or an earlier result; in auto mode the caller pins no version.
--
-- Loops run on the number of attempts left, which is the bound that the source computes (MaxRetries +
-- 1, or 1 where the caller pins a version), so no other fuel is needed. CatchUp runs on fuel; each of
-- its turns but the last applies an event, so one more than the events left is enough. Version and
-- sequence counters count the events of the log; where they must not wrap around, the log is supposed
-- to stay below 2^63 events.
--
-- Simplifications: a payload is the JSON document that its bytes spell, with keys spelled exactly (Go
-- also accepts other letter cases); a clock is the sequence of its readings; the state that a fold
-- returns beside an error is dropped, as every caller does; a publisher's errors are ignored by the
-- source, so publishing is a record of batches; the bus takes the order in which Go ranges over its
-- map of handlers. mustMarshal cannot panic on these structs.
--
-- The database runs its transactions one after another. An error of COMMIT leaves open whether it has
-- taken place (Keeps). A JSONB column holds the document with its keys ordered anew, and a TIMESTAMPTZ
-- column the time with microseconds: both are parameters (jsonb, stored), and times that come out of
-- the events' table fit. A NATS connection closes itself some time after Drain. In the events' table,
-- the numbers that rolled back transactions have drawn are gaps. A read inside of a transaction leaves
-- it alone: where it fails, the caller rolls the transaction back. On NATS, a message that is read is
-- delivered once, and the texts that encoding/json gives bytes and times are parameters.
--
-- Not modelled: transactions that overlap, in which the isolation level shows; the redelivery of NATS
-- messages; the Prometheus metrics, on which no result depends; the generated protobuf code; and of
-- the main program the polling of CatchUp, the servers, the signals and the flags' parsing.
pub mod Prelude
pub mod Int64
pub mod Outcome
pub mod Action
pub mod Sql
pub mod Json
pub mod EventStore
pub mod Ledger
pub mod Projections
pub mod Bus
pub mod GrpcServer
pub mod Startup
mod Tests
