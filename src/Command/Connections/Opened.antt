-- ===== src/Command/Connections/Opened.antt =====
-- What `initDependencies` of cmd/argus/main.go opens: nothing that its cleanup functions do not close.
use argus_go.Base.{
  ℕ, String, Option, none, some, List, [], ◌∷◌, Result, ok, err, Error, Eff, ◌>>=◌, attempt, pure,
  ◌≡◌, ◌⊎◌, inl, inr, refl, if◌then◌else◌, Bool, true, false,
}
use argus_go.Base.Effect.{or_wrapped}
use argus_go.Base.Triple.{OnOk, kept-OnOk, Triple, bind-Triple, or_wrapped-Triple, pure-Triple}
use argus_go.Ingest.{Codec}
use argus_go.Config.{Config, use_memory, PostgresConfig, RedisConfig, KafkaConfig}
use argus_go.Postgres.{executed}
use argus_go.Postgres.Database.{Db, limits, schema, new_db, run_migrations, verified, exec_on}
use argus_go.Redis.Connection.{Connection, new_state_store, options}
use argus_go.Queue.Kafka.Connection.{
  KafkaProducer, KafkaConsumer, close_consumer, new_producer, new_consumer, writer_config,
  reader_config,
}
use argus_go.Processor.World.{Outside}
use argus_go.Command.{
  Machine, Platform, Resource, database, redis_store, kafka_producer, kafka_consumer, Wiring,
  storage_wiring, init_storage, made, init_memory, init_dependencies, wired, Dependencies,
  stop_processor,
}
use argus_go.Command.Connections.{
  Handle, Closes, closes_pool, closes_client, closes_writer, closes_reader, Covered, first, later,
  IsTracked,
}

given-Triple :
    {W A : Type 0} {H : W → Type 0} (message : String) (r : Result A)
    → Triple H (or_wrapped message r) (λ a. H)
given-Triple message (ok a) = record { run = λ w h. h }
given-Triple message (err e) = record { run = λ w h. tt }

module _ {C P N B T R A E : Type 0} (lib : Platform C P N B T R A (Machine E))
    {IsOpen : E → Handle P N T R → Type 0} (t : IsTracked lib IsOpen) where
  -- Only handles that satisfy `H` are open.
  abbrev pub Within : (Handle P N T R → Type 0) → Machine E → Type 0
  Within H m = (h : Handle P N T R) → IsOpen m.outside h → H h

  -- An action that opens nothing.
  abbrev pub Harmless : Eff (Machine E) Unit → Type 0
  Harmless f = (m : Machine E) (h : Handle P N T R) → IsOpen (f m).1.outside h → IsOpen m.outside h

  -- What is open where `r` was the last resource that was made.
  abbrev And : (Handle P N T R → Type 0) → Resource P N T R → Handle P N T R → Type 0
  And H r h = H h ⊎ Closes r h

  module _ (H : Handle P N T R → Type 0) where
    new_pool-OnOk :
        (c : C) (m : Machine E)
        → Within H m
        → OnOk
            (λ p. Within (And H (database (record { pool = some p }))))
            (lib.pgx.new_with_config c m).0
            (lib.pgx.new_with_config c m).1
    new_pool-OnOk c m within = opened (lib.pgx.new_with_config c m).0 refl
      where
        opened :
            (r : Result P)
            → (lib.pgx.new_with_config c m).0 ≡ r
            → OnOk
                (λ p. Within (And H (database (record { pool = some p }))))
                r
                (lib.pgx.new_with_config c m).1
        opened (err e) is_err = tt
        opened (ok p) is_ok = λ h is_open. elim (t.new_with_config c m h is_open) [
          | inl before ↦ inl (within h before)
          | inr (q, made, same) ↦ inr (rw (same, same_pool q made) (closes_pool p))
        ]
          where
            same_pool : (q : P) → (lib.pgx.new_with_config c m).0 ≡ ok q → q ≡ p
            same_pool q made = cc

    pinged-OnOk :
        (p : P) (r : Result (Unit {0})) (m : Machine E)
        → Within (And H (database (record { pool = some p }))) m
        → OnOk
            (λ db. Within (And H (database db)))
            (verified lib.pgx p r m).0
            (verified lib.pgx p r m).1
    pinged-OnOk p (ok a) m within = within
    pinged-OnOk p (err e) m within = tt

    new_db-Triple :
        (cfg : PostgresConfig)
        → Triple (Within H) (new_db lib.pgx cfg) (λ db. Within (And H (database db)))
    unfolding new_db
    new_db-Triple cfg =
        bind-Triple (or_wrapped "failed to parse postgres config" _) _ (given-Triple _ _) (λ c.
          bind-Triple
            (attempt (lib.pgx.new_with_config (lib.pgx.with_limits c (limits cfg)))
              >>= or_wrapped "failed to create postgres pool")
            _ (or_wrapped-Triple _ _ (record { run = new_pool-OnOk _ }))
            (λ p. record {
              run = λ m within.
                  pinged-OnOk p (lib.pgx.ping p m).0 (lib.pgx.ping p m).1
                    (λ h is_open. within h (t.ping_pool p m h is_open));
            }))

    exec_on-Within :
        (p : Option P) (m : Machine E) → Within H m → Within H (exec_on lib.pgx p schema m).1
    exec_on-Within none m within = within
    exec_on-Within (some p) m within = λ h is_open. within h (t.exec p schema m h is_open)

    executed-OnOk :
        (r : Result ℕ) (m : Machine E)
        → Within H m
        → OnOk
            (λ a. Within H)
            (executed "failed to run migrations" r m).0
            (executed "failed to run migrations" r m).1
    executed-OnOk (ok n) m within = within
    executed-OnOk (err e) m within = tt

    run_migrations-Triple :
        (db : Db P) → Triple (Within H) (run_migrations lib.pgx db) (λ a. Within H)
    unfolding run_migrations
    run_migrations-Triple db = record {
      run = λ m within. executed-OnOk _ _ (exec_on-Within db.pool m within);
    }

    new_state_store-Triple :
        (cfg : RedisConfig)
        → Triple (Within H) (new_state_store lib.redis cfg) (λ s. Within (And H (redis_store s)))
    unfolding new_state_store
    new_state_store-Triple cfg = record {
      run = λ m within.
          let (n, m') = lib.redis.new_client (options cfg) m in
          let connected : Triple (Within (And H (redis_store (record { client = some n }))))
              (attempt (lib.redis.ping n) >>= or_wrapped "failed to connect to redis")
              (λ a. Within (And H (redis_store (record { client = some n })))) =
            or_wrapped-Triple _ _ (record {
              run = λ u before.
                  kept-OnOk (Within (And H (redis_store (record { client = some n })))) _ _
                    (λ h is_open. before h (t.ping_client n u h is_open));
            }) in
          (bind-Triple _ _ connected (λ a. pure-Triple (record { client = some n }))).run m'
            (λ h is_open. elim (t.new_client (options cfg) m h is_open) [
              | inl before ↦ inl (within h before)
              | inr same ↦ inr (rw same (closes_client _))
            ]);
    }

    new_producer-Triple :
        (cfg : KafkaConfig)
        → Triple
            (Within H)
            (made (new_producer lib.kafka cfg))
            (λ p. Within (And H (kafka_producer p)))
    unfolding new_producer
    new_producer-Triple cfg = record {
      run = λ m within h is_open. elim (t.new_writer (writer_config cfg) m h is_open) [
        | inl before ↦ inl (within h before)
        | inr same ↦ inr (rw same (closes_writer _))
      ];
    }

    new_consumer-Triple :
        (cfg : KafkaConfig)
        → Triple
            (Within H)
            (made (new_consumer lib.kafka cfg))
            (λ c. Within (And H (kafka_consumer c)))
    unfolding new_consumer
    new_consumer-Triple cfg = record {
      run = λ m within h is_open. elim (t.new_reader (reader_config cfg) m h is_open) [
        | inl before ↦ inl (within h before)
        | inr same ↦ inr (rw same (closes_reader _))
      ];
    }

  consumer-Harmless : (c : KafkaConsumer R) → Harmless (close_consumer lib.kafka c)
  unfolding close_consumer
  consumer-Harmless c = closing c.reader
    where
      closing : (r : Option R) → Harmless (close_consumer lib.kafka (record { reader = r }))
      closing none m h is_open = is_open
      closing (some r) m h is_open = t.close_reader r m h is_open

  -- A wiring that has opened no more than `H` and what its cleanup functions close, and whose consumer
  -- opens nothing when it is closed.
  abbrev pub Tidy : (Handle P N T R → Type 0) → Wiring P N T R (Machine E) → Machine E → Type 0
  Tidy H w m = Within (λ h. H h ⊎ Covered h w.cleanup_funcs) m × Harmless w.consumer.close

  collect :
      (H : Handle P N T R → Type 0) {d : Db P} {s : Connection N} {p : KafkaProducer T}
      {c : KafkaConsumer R} (h : Handle P N T R)
      → And (And (And (And H (database d)) (redis_store s)) (kafka_producer p)) (kafka_consumer c) h
      → H h ⊎ Covered h (database d ∷ redis_store s ∷ kafka_producer p ∷ kafka_consumer c ∷ [])
  collect H h (inr c) = inr (later (later (later (first c))))
  collect H h (inl (inr p)) = inr (later (later (first p)))
  collect H h (inl (inl (inr s))) = inr (later (first s))
  collect H h (inl (inl (inl (inr d)))) = inr (first d)
  collect H h (inl (inl (inl (inl before)))) = inl before

  module _ (o : Outside) (H : Handle P N T R → Type 0) where
    pub init_storage-Triple : (cfg : Config) → Triple (Within H) (init_storage lib cfg) (Tidy H)
    unfolding init_storage
    init_storage-Triple cfg =
        bind-Triple (new_db lib.pgx cfg.postgres) _ (new_db-Triple H cfg.postgres) (λ d.
          let H1 = And H (database d) in
          bind-Triple (run_migrations lib.pgx d) _ (run_migrations-Triple H1 d) (λ a.
            bind-Triple (new_state_store lib.redis cfg.redis) _
              (new_state_store-Triple H1 cfg.redis)
              (λ s.
                let H2 = And H1 (redis_store s) in
                bind-Triple (made (new_producer lib.kafka cfg.kafka)) _
                  (new_producer-Triple H2 cfg.kafka)
                  (λ p.
                    let H3 = And H2 (kafka_producer p) in
                    bind-Triple (made (new_consumer lib.kafka cfg.kafka))
                      (λ c. pure (storage_wiring lib d s p c)) (new_consumer-Triple H3 cfg.kafka)
                      (λ c. record {
                        run = λ m within.
                            (λ h is_open. collect H h (within h is_open), consumer-Harmless c);
                      })))))

    init_stores-Triple :
        (cfg : Config) (in_memory : Bool)
        → Triple (Within H) (if in_memory then init_memory o else init_storage lib cfg) (Tidy H)
    init_stores-Triple cfg true = record {
      run = λ m within. (λ h is_open. inl (within h is_open), λ u h is_open. is_open);
    }
    init_stores-Triple cfg false = init_storage-Triple cfg

    module _ (codec : Codec) (text : Error → String) where
      -- What main gets: nothing but `H` and what the cleanup functions close is open, and the stop of the
      -- processor opens nothing.
      abbrev pub Ready : Dependencies A (Machine E) × List (Resource P N T R) → Machine E → Type 0
      Ready (deps, funcs) m =
          Within (λ h. H h ⊎ Covered h funcs) m × Harmless (stop_processor deps.processor)

      pub init_dependencies-Triple :
          (cfg : Config) → Triple (Within H) (init_dependencies o lib codec text cfg) Ready
      unfolding init_dependencies wired
      init_dependencies-Triple cfg =
          bind-Triple _ (λ w. pure (wired o lib codec text cfg w, w.cleanup_funcs))
            (init_stores-Triple cfg (use_memory cfg.storage)) (λ w. record { run = λ m tidy. tidy })
