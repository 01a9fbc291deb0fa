-- ===== src/Startup/Paths.antt =====
-- Every path through `buildStorage`, `buildBus` and `run` of cmd/streamledger/main.go.
use streamledger.Prelude.{
  List, [], ◌∷◌, ◌++◌, ◌≡◌, inl, inr, refl, Bool-cases, String, ◌==◌, string_eq,
}
use streamledger.Outcome.{Outcome, ok, err}
use streamledger.Action.{Action, ◌>>=◌}
use streamledger.Startup.{
  Pools, SchemaFiles, NatsClient, Storage, memory, postgres, EventBus, in_memory, nats, Config,
  named, or_else, connect, migrate, events_label, views_label, build_postgres, build_storage,
  cleanup_storage, connect_nats, build_bus, cleanup_bus, deferring, run,
}
use streamledger.Startup.Balance.{
  Tracks, Handle, pool_handle, connection, pool_held, connection_held, Holds-bind, Holds-named,
  Holds-or_else, Holds-still, HoldsNow, none_held, pools_of, connections_of, step-cases, dial-Holds,
  connect-Holds, migrate-Holds,
}

module _ {W P C J : Type 0} (pools : Pools W P) (client : NatsClient W C J)
    (c : Tracks pools client) (es_files rm_files : SchemaFiles) where
  abbrev connected : SchemaFiles → String → String → Action W P
  connected files label url = connect pools files label url

  abbrev migrated : String → SchemaFiles → String → P → Action W (Unit {0})
  migrated what files label pool = named what (migrate pools files label pool)

  migrated-Holds :
      (what : String) (files : SchemaFiles) (label : String) (pool : P) (s : W)
      (n : List (Handle P C))
      → c.open_now s ≡ n
      → HoldsNow pools client c none_held n (migrated what files label pool s)
  migrated-Holds what files label pool s n h =
      Holds-named c.open_now none_held what (migrate pools files label pool) s n
        (migrate-Holds pools client c files label pool s n h)

  close_both :
      (es rm : P) (s : W) (n : List (Handle P C))
      → c.open_now s ≡ pool_handle rm ∷ pool_handle es ∷ n
      → c.open_now (pools.close rm (pools.close es s)) ≡ n
  close_both es rm s n h =
      c.closes_pool rm (pools.close es s) [] n (c.closes_pool es s (pool_held rm) n h)

  build_postgres-Holds :
      (url : String) (s : W) (n : List (Handle P C))
      → c.open_now s ≡ n
      → HoldsNow pools client c pools_of n (build_postgres pools es_files rm_files url s)
  unfolding build_postgres
  build_postgres-Holds url s n h =
      Holds-bind c.open_now pool_held pools_of (connected es_files events_label url) _ s n
        (connect-Holds pools client c es_files events_label url s n h)
        (λ es s₁ h₁.
          let es_migrated = migrated "migrate event store" es_files events_label es in
          Holds-bind c.open_now (λ _. pool_held es) pools_of (or_else (pools.close es) es_migrated)
            _ s₁ n
            (Holds-or_else c.open_now none_held (pools.close es) es_migrated s₁ n (pool_held es)
              (λ s₂ h₂. c.closes_pool es s₂ [] n h₂)
              (migrated-Holds "migrate event store" es_files events_label es s₁ (pool_handle es ∷ n)
                h₁))
            (λ u s₂ h₂.
              let rm_connected = connected rm_files views_label url in
              Holds-bind c.open_now (λ rm. pool_handle rm ∷ pool_handle es ∷ []) pools_of
                (or_else (pools.close es) rm_connected) _ s₂ n
                (Holds-or_else c.open_now pool_held (pools.close es) rm_connected s₂ n
                  (pool_held es) (λ s₃ h₃. c.closes_pool es s₃ [] n h₃)
                  (connect-Holds pools client c rm_files views_label url s₂ (pool_handle es ∷ n)
                    h₂))
                (λ rm s₃ h₃.
                  let rm_migrated = migrated "migrate read models" rm_files views_label rm in
                  let undo = λ (x : W). pools.close rm (pools.close es x) in
                  Holds-bind c.open_now (λ _. pool_handle rm ∷ pool_handle es ∷ []) pools_of
                    (or_else undo rm_migrated) _ s₃ n
                    (Holds-or_else c.open_now none_held undo rm_migrated s₃ n
                      (pool_handle rm ∷ pool_handle es ∷ []) (λ s₄ h₄. close_both es rm s₄ n h₄)
                      (migrated-Holds "migrate read models" rm_files views_label rm s₃
                        (pool_handle rm ∷ pool_handle es ∷ n) h₃))
                    (λ u s₄ h₄. record { leaves = h₄ }))))

  build_storage-Holds :
      (kind url : String) (s : W) (n : List (Handle P C))
      → c.open_now s ≡ n
      → HoldsNow pools client c pools_of n (build_storage pools es_files rm_files kind url s)
  unfolding build_storage
  build_storage-Holds kind url s n h = elim (Bool-cases (kind == "memory")) [
    | inl in_process ↦ rw in_process (record { leaves = h })
    | inr other ↦ elim (Bool-cases (kind == "postgres")) [
      | inr unknown ↦ rw (other, unknown) (record { leaves = h })
      | inl in_database ↦ elim (Bool-cases (url == "")) [
        | inl missing ↦ rw (other, in_database, missing) (record { leaves = h })
        | inr given ↦ rw (other, in_database, given) (build_postgres-Holds url s n h)
      ]
    ]
  ]

  cleanup_storage_lem :
      (storage : Storage P) (s : W) (n : List (Handle P C))
      → c.open_now s ≡ pools_of storage ++ n
      → c.open_now (cleanup_storage pools es_files rm_files storage s) ≡ n
  unfolding cleanup_storage
  cleanup_storage_lem memory s n h = h
  cleanup_storage_lem (postgres es rm) s n h = close_both es rm s n h

  connect_nats-Holds :
      (url : String) (s : W) (n : List (Handle P C))
      → c.open_now s ≡ n
      → HoldsNow pools client c connection_held n (connect_nats client url s)
  unfolding connect_nats
  connect_nats-Holds url s n h =
      Holds-bind c.open_now connection_held connection_held
        (named "natsbus: connect" (client.dial url)) _ s n
        (Holds-named c.open_now connection_held "natsbus: connect" (client.dial url) s n
          (dial-Holds pools client c url s n h))
        (λ nc s₁ h₁.
          let started = named "natsbus: jetstream" (client.new_jetstream nc) in
          Holds-bind c.open_now (λ _. connection_held nc) connection_held
            (or_else (client.close nc) started) _ s₁ n
            (Holds-or_else c.open_now none_held (client.close nc) started s₁ n (connection_held nc)
              (λ s₂ h₂. c.closes_nats nc s₂ [] n h₂)
              (Holds-named c.open_now none_held "natsbus: jetstream" (client.new_jetstream nc) s₁
                (connection nc ∷ n)
                (Holds-still c.open_now none_held (client.new_jetstream nc) s₁ (connection nc ∷ n)
                  (λ a. refl) h₁ (c.jetstreams nc s₁))))
            (λ js s₂ h₂.
              let created =
                named "natsbus: create stream" (client.create_stream js "streamledger_events") in
              Holds-bind c.open_now (λ _. connection_held nc) connection_held
                (or_else (client.close nc) created) _ s₂ n
                (Holds-or_else c.open_now none_held (client.close nc) created s₂ n
                  (connection_held nc) (λ s₃ h₃. c.closes_nats nc s₃ [] n h₃)
                  (Holds-named c.open_now none_held "natsbus: create stream"
                    (client.create_stream js "streamledger_events") s₂ (connection nc ∷ n)
                    (Holds-still c.open_now none_held
                      (client.create_stream js "streamledger_events") s₂ (connection nc ∷ n)
                      (λ a. refl) h₂ (c.streams js "streamledger_events" s₂))))
                (λ u s₃ h₃. record { leaves = h₃ })))

  build_bus-Holds :
      (kind url : String) (s : W) (n : List (Handle P C))
      → c.open_now s ≡ n
      → HoldsNow pools client c connections_of n (build_bus client kind url s)
  unfolding build_bus
  build_bus-Holds kind url s n h = elim (Bool-cases (kind == "memory")) [
    | inl in_process ↦ rw in_process (record { leaves = h })
    | inr other ↦ elim (Bool-cases (kind == "nats")) [
      | inr unknown ↦ rw (other, unknown) (record { leaves = h })
      | inl on_nats ↦
          rw (other, on_nats)
            (Holds-bind c.open_now connection_held connections_of (connect_nats client url) _ s n
              (connect_nats-Holds url s n h) (λ nc s₁ h₁. record { leaves = h₁ }))
    ]
  ]

  cleanup_bus_lem :
      (bus : EventBus C) (s : W) (n : List (Handle P C))
      → c.open_now s ≡ connections_of bus ++ n
      → c.open_now (cleanup_bus client bus s) ≡ n
  unfolding cleanup_bus
  cleanup_bus_lem in_memory s n h = h
  cleanup_bus_lem (nats nc) s n h = c.drains nc s [] n h

  deferring-Holds :
      (cleanup : W → W) (m : Action W (Unit {0})) (s : W) (n more : List (Handle P C))
      → ((s' : W) → c.open_now s' ≡ more ++ n → c.open_now (cleanup s') ≡ n)
      → HoldsNow pools client c none_held (more ++ n) (m s)
      → HoldsNow pools client c none_held n (deferring cleanup m s)
  deferring-Holds cleanup m s n more back h = elim (step-cases (m s)) [
    | inl (u, s', q) ↦
        let here : c.open_now s' ≡ more ++ n = rw q at h.leaves in
        rw q (record { leaves = back s' here })
    | inr (x, s', q) ↦ rw q (record { leaves = back s' (rw q at h.leaves) })
  ]

  -- What is open at the end, with an error or without.
  settled :
      (x : Outcome (Unit {0}) × W) (n : List (Handle P C))
      → HoldsNow pools client c none_held n x
      → c.open_now x.1 ≡ n
  settled (ok u, s) n h = h.leaves
  settled (err e, s) n h = h.leaves

  module _ (register : Action W (Unit {0})) (serve : Storage P → EventBus C → Action W (Unit {0}))
      (registers : (s : W) → c.open_now (register s).1 ≡ c.open_now s)
      (serves : (storage : Storage P) (bus : EventBus C) (s : W)
        → c.open_now (serve storage bus s).1 ≡ c.open_now s) where
    run-Holds :
        (cfg : Config) (s : W) (n : List (Handle P C))
        → c.open_now s ≡ n
        → HoldsNow pools client c none_held n
            (run pools es_files rm_files client cfg register serve s)
    unfolding run
    run-Holds cfg s n h =
        Holds-bind c.open_now none_held none_held (named "register metrics" register) _ s n
          (Holds-named c.open_now none_held "register metrics" register s n
            (Holds-still c.open_now none_held register s n (λ a. refl) h (registers s)))
          (λ u s₁ h₁.
            let storage_built =
              build_storage pools es_files rm_files cfg.storage_kind cfg.database_url in
            Holds-bind c.open_now pools_of none_held (named "build storage" storage_built) _ s₁ n
              (Holds-named c.open_now pools_of "build storage" storage_built s₁ n
                (build_storage-Holds cfg.storage_kind cfg.database_url s₁ n h₁))
              (λ storage s₂ h₂.
                let bus_built = build_bus client cfg.bus_kind cfg.nats_url in
                let rest = pools_of storage ++ n in
                deferring-Holds (cleanup_storage pools es_files rm_files storage)
                  (named "build bus" bus_built >>= λ bus.
                    deferring (cleanup_bus client bus) (serve storage bus))
                  s₂ n (pools_of storage) (λ s₃ h₃. cleanup_storage_lem storage s₃ n h₃)
                  (Holds-bind c.open_now connections_of none_held (named "build bus" bus_built) _ s₂
                    rest
                    (Holds-named c.open_now connections_of "build bus" bus_built s₂ rest
                      (build_bus-Holds cfg.bus_kind cfg.nats_url s₂ rest h₂))
                    (λ bus s₃ h₃.
                      deferring-Holds (cleanup_bus client bus) (serve storage bus) s₃ rest
                        (connections_of bus) (λ s₄ h₄. cleanup_bus_lem bus s₄ rest h₄)
                        (Holds-still c.open_now none_held (serve storage bus) s₃
                          (connections_of bus ++ rest) (λ a. refl) h₃ (serves storage bus s₃))))))

    -- With drivers that open and close as they say, and with a registration of the metrics and a
    -- service that leave the pools and connections alone, exactly those pools and connections are open
    -- when `run` returns that were open when it was called, whatever the flags are and whichever
    -- step fails; a NATS connection that was told to drain is not counted as open.
    pub run_balanced :
        (cfg : Config) (s : W)
        → c.open_now (run pools es_files rm_files client cfg register serve s).1 ≡ c.open_now s
    run_balanced cfg s = settled _ (c.open_now s) (run-Holds cfg s (c.open_now s) refl)
