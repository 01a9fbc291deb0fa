-- ===== src/Startup.antt =====
-- cmd/streamledger/main.go: what the program opens when it starts and closes when it ends, with `Connect` and
-- `Migrate` of internal/eventstore/postgres/store.go and internal/projections/postgres/store.go and `Connect` of
-- internal/bus/natsbus/bus.go. The drivers (pgxpool, nats.go) and the rest of the process are parameters.
pub mod Balance
pub mod Paths
pub mod Following
use Prim.Native.String.{compare, ◌++◌ as str_append}
use Prim.Native.Nat.{lt, eq, gt}
use streamledger.Prelude.{
  ℕ, Bool, true, false, Option, none, some, List, [], ◌∷◌, String, if◌then◌else◌, ◌==◌, string_eq,
  ℤ, pos,
}
use streamledger.Outcome.{Outcome, ok, err, external, wrap_error}
use streamledger.Action.{Action, lift, ◌>>=◌}
use streamledger.EventStore.{Event}
use streamledger.Bus.{Handler}
use streamledger.Projections.Projector.{Projector, apply_event, catch_up}

-- pgxpool
pub record Pools (W P : Type 0) : Type 0 where
  pub new_pool : String → Action W P
  pub ping : P → Action W (Unit {0})
  pub exec : P → String → Action W (Unit {0})
  pub close : P → W → W

-- The embedded files of a schema directory.
pub record SchemaFiles : Type 0 where
  pub read_dir : Outcome (List String)
  pub read_file : String → Outcome String

-- nats.go and its package jetstream
pub record NatsClient (W C J : Type 0) : Type 0 where
  pub dial : String → Action W C
  pub new_jetstream : C → Action W J
  pub create_stream : J → String → Action W (Unit {0})
  pub close : C → W → W
  pub drain : C → W → W

-- sort.Strings
abbrev pub is_before : String → String → Bool
is_before a b = elim (compare a b) [ lt ↦ true | eq ↦ true | gt ↦ false ]

abbrev pub place_name : String → List String → List String
place_name name [] = name ∷ []
place_name name (x ∷ names) =
    let rest = place_name name names in if is_before name x then name ∷ x ∷ names else x ∷ rest

abbrev pub sort_strings : List String → List String
sort_strings [] = []
sort_strings (name ∷ names) = place_name name (sort_strings names)

abbrev pub failed {ℓ} : {A : Type ℓ} → String → Outcome A → Outcome A
failed what = wrap_error (external what)

module _ {W : Type 0} where
  -- `fmt.Errorf("…: %w", err)` around what an action reports
  abbrev pub named : {A : Type 0} → String → Action W A → Action W A
  named what m s = let (r, s') = m s in (failed what r, s')

  -- What is done on the way out when there is an error.
  abbrev pub undone : {A : Type 0} → (W → W) → Outcome A → W → Outcome A × W
  undone undo (ok a) s = (ok a, s)
  undone undo (err e) s = (err e, undo s)

  abbrev pub or_else : {A : Type 0} → (W → W) → Action W A → Action W A
  or_else undo m s = let (r, s') = m s in undone undo r s'

module _ {W P : Type 0} (pools : Pools W P) (schema : SchemaFiles) (label : String) where
  -- `Connect`
  unfoldable pub connect : String → Action W P
  connect database_url =
      named (str_append label ": connect") (pools.new_pool database_url) >>= λ pool.
      or_else (pools.close pool) (named (str_append label ": ping") (pools.ping pool)) >>= λ _.
      lift (ok pool)

  -- The loop of `Migrate`.
  unfoldable pub apply_files : P → List String → Action W (Unit {0})
  apply_files pool [] s = (ok tt, s)
  apply_files pool (name ∷ names) s =
      (lift (failed (str_append label (str_append ": read " name)) (schema.read_file name))
          >>= λ text.
              named (str_append label (str_append ": apply " name)) (pools.exec pool text) >>= λ _.
              apply_files pool names)
        s

  unfoldable pub migrate : P → Action W (Unit {0})
  migrate pool = lift (failed (str_append label ": read schema dir") schema.read_dir) >>= λ names.
      apply_files pool (sort_strings names)

-- What `buildStorage` and `buildBus` hand back: the pools or the connection that they hold.
pub data Storage (P : Type 0) : Type 0 where
  memory : Storage P
  postgres : P → P → Storage P

pub data EventBus (C : Type 0) : Type 0 where
  in_memory : EventBus C
  nats : C → EventBus C

-- The prefixes of the two stores' errors.
abbrev pub events_label : String
events_label = "postgres store"

abbrev pub views_label : String
views_label = "projections/postgres"

module _ {W P : Type 0} (pools : Pools W P) (event_schema view_schema : SchemaFiles) where
  -- The branch of `buildStorage` for "postgres".
  unfoldable pub build_postgres : String → Action W (Storage P)
  build_postgres database_url = connect pools event_schema events_label database_url >>= λ es.
      or_else (pools.close es)
        (named "migrate event store" (migrate pools event_schema events_label es))
      >>= λ _.
          or_else (pools.close es) (connect pools view_schema views_label database_url) >>= λ rm.
          or_else (λ s. pools.close rm (pools.close es s))
            (named "migrate read models" (migrate pools view_schema views_label rm))
          >>= λ _. lift (ok (postgres es rm))

  unfoldable pub build_storage : String → String → Action W (Storage P)
  build_storage kind database_url =
      if kind == "memory"
      then lift (ok memory)
      else if kind == "postgres"
      then (if database_url == ""
          then lift (err (external "-database-url is required when -storage=postgres"))
          else build_postgres database_url)
      else lift (err (external "unknown -storage"))

  -- The function that `buildStorage` hands back.
  unfoldable pub cleanup_storage : Storage P → W → W
  cleanup_storage memory s = s
  cleanup_storage (postgres es rm) s = pools.close rm (pools.close es s)

module _ {W C J : Type 0} (client : NatsClient W C J) where
  -- `natsbus.Connect`, with the default stream name
  unfoldable pub connect_nats : String → Action W C
  connect_nats nats_url = named "natsbus: connect" (client.dial nats_url) >>= λ nc.
      or_else (client.close nc) (named "natsbus: jetstream" (client.new_jetstream nc)) >>= λ js.
      or_else (client.close nc)
        (named "natsbus: create stream" (client.create_stream js "streamledger_events"))
      >>= λ _. lift (ok nc)

  unfoldable pub build_bus : String → String → Action W (EventBus C)
  build_bus kind nats_url =
      if kind == "memory"
      then lift (ok in_memory)
      else if kind == "nats"
      then (connect_nats nats_url >>= λ nc. lift (ok (nats nc)))
      else lift (err (external "unknown -bus"))

  -- The function that `buildBus` hands back; closing the in-memory bus drops its handlers only.
  unfoldable pub cleanup_bus : EventBus C → W → W
  cleanup_bus in_memory s = s
  cleanup_bus (nats nc) s = client.drain nc s

abbrev pub catch_up_batch_size : ℤ
catch_up_batch_size = pos 500

-- The flags.
pub record Config : Type 0 where
  pub storage_kind : String
  pub database_url : String
  pub bus_kind : String
  pub nats_url : String

abbrev pub env_or : Outcome String → String → String
env_or (ok v) fallback = if v == "" then fallback else v
env_or (err _) fallback = fallback

-- `defer`: what is done on the way out in any case.
abbrev pub deferring : {W A : Type 0} → (W → W) → Action W A → Action W A
deferring cleanup m s = let (r, s') = m s in (r, cleanup s')

module _ {W P C J : Type 0} (pools : Pools W P) (event_schema view_schema : SchemaFiles)
    (client : NatsClient W C J) where
  -- The frame of `run`: `register` is the registration of the metrics, and `serve` what `run` does
  -- from the first projector on, until it returns.
  unfoldable pub run :
      Config
      → Action W (Unit {0})
      → (Storage P → EventBus C → Action W (Unit {0}))
      → Action W (Unit {0})
  run cfg register serve = named "register metrics" register >>= λ _.
      named "build storage"
        (build_storage pools event_schema view_schema cfg.storage_kind cfg.database_url)
      >>= λ storage. deferring (cleanup_storage pools event_schema view_schema storage) (
          named "build bus" (build_bus client cfg.bus_kind cfg.nats_url) >>= λ bus.
          deferring (cleanup_bus client bus) (serve storage bus))

abbrev pub initial : String → Option (ℕ × Outcome (Unit {0})) → Option (Outcome (Unit {0}))
initial name none = none
initial name (some (applied, r)) = some (failed (str_append "initial catch-up for " name) r)

module _ {W : Type 0} where
  -- The handler that `subscribeAndCatchUp` subscribes.
  abbrev pub live_handler : Projector W → Handler W
  live_handler p msg = apply_event p msg.event >>= λ _. lift (ok tt)

  abbrev pub after_subscribe :
      {B : Type 0}
      → (ℤ → ℤ → Outcome (List Event))
      → Projector W
      → ℕ
      → Outcome (Unit {0})
      → B × W
      → Option (Outcome (Unit {0})) × (B × W)
  after_subscribe load_since p fuel (err e) s = (some (err e), s)
  after_subscribe load_since p fuel (ok _) (b, s) =
      let (x, s') = catch_up p load_since catch_up_batch_size fuel 0 s in
      (initial p.name x, (b, s'))

  -- `subscribeAndCatchUp` until it returns, on a bus of which `subscribe` is the method, beside the
  -- views; what the bus delivers to the handler from then on are steps of their own. `none` is where
  -- the fuel has run out.
  unfoldable pub subscribe_and_catch_up :
      {B : Type 0}
      → (Handler W → Action B (Unit {0}))
      → (ℤ → ℤ → Outcome (List Event))
      → Projector W
      → ℕ
      → B × W
      → Option (Outcome (Unit {0})) × (B × W)
  subscribe_and_catch_up subscribe load_since p fuel (b, s) =
      let (r, b') = subscribe (live_handler p) b in after_subscribe load_since p fuel r (b', s)
