-- ===== src/Command.antt =====
-- cmd/argus/main.go up to the start of the goroutines: how main gets its dependencies, and the function
-- that cleans them up. Command.Lifecycle is the rest of main.
mod Parts
pub mod Lifecycle
pub mod Shutdown
pub mod Connections
pub mod Wired
mod Network
mod Samples
mod Tests
pub use Parts.*
use argus_go.Base.{
  ℕ, zero, suc, String, Bool, Option, none, some, List, [], ◌∷◌, Result, ok, err, Error, Eff, ◌>>=◌,
  ◌>>◌, pure, if◌then◌else◌,
}
use argus_go.Base.Lists.{length, get_elem?}
use argus_go.Base.Map.{Map}
use argus_go.Config.{Config, use_memory}
use argus_go.Domain.{InternalEvent}
use argus_go.Store.{StateStore, AlertRepository, EventManagerRepository, GroupingRuleRepository}
use argus_go.Store.Lifted.{
  Part, on_part, state_store_on, alerts_on, event_managers_on, grouping_rules_on,
}
use argus_go.Memory.States.{new_state_store}
use argus_go.Memory.Alerts.{new_alert_repository}
use argus_go.Memory.EventManagers.{new_event_manager_repository}
use argus_go.Memory.GroupingRules.{new_grouping_rule_repository}
use argus_go.Postgres.{Pool}
use argus_go.Postgres.Alerts.{AlertRow, postgres_alert_repository}
use argus_go.Postgres.EventManagers.{EventManagerRow, postgres_event_manager_repository}
use argus_go.Postgres.GroupingRules.{GroupingRuleRow, postgres_grouping_rule_repository}
use argus_go.Postgres.Database
use argus_go.Postgres.Database.{Pgx, Db, new_db, run_migrations}
use argus_go.Redis.{RedisClient, StateCodec, redis_state_store}
use argus_go.Redis.Connection as RedisConnection
use argus_go.Queue.{Message, MessageHandler, Producer, Consumer}
use argus_go.Queue.Memory
use argus_go.Queue.Memory.{new_queue, beyond}
use argus_go.Queue.Kafka
use argus_go.Queue.Kafka.{Conversions, KafkaMessage, Outcome, Loop}
use argus_go.Queue.Kafka.Connection as KafkaConnection
use argus_go.Queue.Kafka.Connection.{KafkaProducer, KafkaConsumer}
use argus_go.Notification.{Notifier}
use argus_go.Processor.{Service, handle_message}
use argus_go.Processor.World.{
  World, Outside, memory_state_store, memory_alert_repository, memory_event_manager_repository,
  memory_grouping_rule_repository, stub_notifier, now, new_id,
}
use argus_go.Ingest.{Codec}
use argus_go.Ingest.World.{System, memory_producer}
use argus_go.Api.Server.{Fiber, Server, new_server, shutdown}
use Lifecycle.{Duties}

-- `Service.Start`; `none` where it does not return.
abbrev pub start_processor :
    {W : Type 0}
    → (List ℕ → Option InternalEvent)
    → ProcessorService W
    → W
    → Option (Result (Unit {0}) × W)
start_processor unmarshal p = p.consumer.start (handle_message p.service unmarshal)

-- `Service.Stop`
abbrev pub stop_processor : {W : Type 0} → ProcessorService W → Eff W Unit
stop_processor p = p.consumer.close

-- A constructor that cannot fail.
abbrev pub made : {A W : Type 0} → (W → A × W) → Eff W A
made f w = let (a, w') = f w in (ok a, w')

module _ {E : Type 0} where
  abbrev pub system_part : Part System (Machine E)
  system_part = record { view = λ m. m.system; set = λ s m. record m { system = s } }

  abbrev pub world_part : Part World (Machine E)
  world_part = record {
    view = λ m. m.system.world;
    set = λ w m. record m { system = record m.system { world = w } };
  }

  -- `NewQueue` and the constructors of the in-memory stores, in place of what the memory held.
  abbrev pub new_memory : ℕ → Machine E → Machine E
  new_memory buffer_size m = record m {
    system = record m.system {
      world = record m.system.world {
        states = new_state_store;
        repo = new_alert_repository;
        event_managers = new_event_manager_repository;
        grouping_rules = new_grouping_rule_repository;
      };
      queue = new_queue buffer_size;
    };
  }

  abbrev pub close_queue : Machine E → Machine E
  close_queue m = record m { system = record m.system { queue = Memory.close m.system.queue } }

  -- What the loop of the in-memory consumer has not taken is left in the queue when it returns.
  abbrev drained :
      List Message → Option (Result (Unit {0}) × Machine E) → Option (Result (Unit {0}) × Machine E)
  drained left none = none
  drained left (some (r, m)) = some (
    r,
    record m { system = record m.system { queue = record m.system.queue { messages = left } } },
  )

  abbrev memory_consumer : Consumer (Machine E)
  memory_consumer = record {
    start = λ handler m.
        drained (beyond m.processing m.system.queue.messages)
          (Memory.start handler m.processing m.system.queue m);
    close = λ m. (ok tt, close_queue m);
  }

  module _ (o : Outside) {P N T R : Type 0} where
    -- What the branch of `initDependencies` for `storage.mode: memory` has made at its end.
    abbrev pub memory_wiring : Wiring P N T R (Machine E)
    memory_wiring = record {
      state_store = state_store_on world_part (memory_state_store o);
      alert_repo = alerts_on world_part (memory_alert_repository o);
      event_manager_repo = event_managers_on world_part (memory_event_manager_repository o);
      grouping_rule_repo = grouping_rules_on world_part (memory_grouping_rule_repository o);
      producer = record {
        publish = λ msg. on_part system_part (memory_producer.publish msg);
        close = on_part system_part memory_producer.close;
      };
      consumer = memory_consumer;
      cleanup_funcs = in_memory_states ∷ in_memory_queue ∷ [];
    }

    abbrev pub init_memory : Eff (Machine E) (Wiring P N T R (Machine E))
    init_memory m = (ok memory_wiring, new_memory 10000 m)

-- What `Start` has returned after its rounds.
abbrev ended : {W : Type 0} → Option (Result (Unit {0})) × Loop W → Option (Result (Unit {0}) × W)
ended (none, s) = none
ended (some r, s) = some (r, s.world)

module _ {C P N B T R A E : Type 0} (lib : Platform C P N B T R A (Machine E)) where
  -- The in-memory variant is not used here.
  abbrev storage_producer : KafkaProducer T → Producer (Machine E)
  storage_producer p = record {
    publish =
        λ msg. Kafka.publish lib.conversions (lib.write_messages p.writer) lib.header_order msg;
    close = KafkaConnection.close_producer lib.kafka p;
  }

  abbrev storage_consumer : KafkaConsumer R → Consumer (Machine E)
  storage_consumer c = record {
    start = λ handler m. ended (
        Kafka.start lib.conversions handler (lib.rounds c.reader)
          (record { world = m; committed = [] }));
    close = KafkaConnection.close_consumer lib.kafka c;
  }

  -- What the other branch has made at its end.
  abbrev pub storage_wiring :
      Db P
      → RedisConnection.Connection N
      → KafkaProducer T
      → KafkaConsumer R
      → Wiring P N T R (Machine E)
  storage_wiring db connection producer consumer = record {
    state_store = redis_state_store (lib.commands connection.client) lib.state_codec;
    alert_repo = postgres_alert_repository (lib.alert_rows db.pool);
    event_manager_repo = postgres_event_manager_repository (lib.event_manager_rows db.pool);
    grouping_rule_repo = postgres_grouping_rule_repository (lib.grouping_rule_rows db.pool);
    producer = storage_producer producer;
    consumer = storage_consumer consumer;
    cleanup_funcs =
        database db
        ∷ redis_store connection
        ∷ kafka_producer producer
        ∷ kafka_consumer consumer
        ∷ [];
  }

  -- The other branch.
  unfoldable pub init_storage : Config → Eff (Machine E) (Wiring P N T R (Machine E))
  init_storage cfg = do
    db ← new_db lib.pgx cfg.postgres
    run_migrations lib.pgx db
    connection ← RedisConnection.new_state_store lib.redis cfg.redis
    producer ← made (KafkaConnection.new_producer lib.kafka cfg.kafka)
    consumer ← made (KafkaConnection.new_consumer lib.kafka cfg.kafka)
    pure (storage_wiring db connection producer consumer)

  -- One cleanup function: errors are dropped.
  unfoldable pub close_resource : Resource P N T R → Machine E → Machine E
  close_resource in_memory_states m = m
  close_resource in_memory_queue m = close_queue m
  close_resource (database db) m = Database.close lib.pgx db m
  close_resource (redis_store s) m = (RedisConnection.close lib.redis s m).1
  close_resource (kafka_producer p) m = (KafkaConnection.close_producer lib.kafka p m).1
  close_resource (kafka_consumer c) m = (KafkaConnection.close_consumer lib.kafka c m).1

  -- What is left for main to call once it has started its goroutines.
  abbrev pub duties :
      Dependencies A (Machine E) → List (Resource P N T R) → Duties (Resource P N T R) (Machine E)
  duties deps funcs = record {
    shutdown = shutdown lib.fiber deps.server;
    stop = stop_processor deps.processor;
    close = close_resource;
    cleanup_funcs = funcs;
  }

module _ {C P N B T R A E : Type 0} (o : Outside) (lib : Platform C P N B T R A (Machine E)) where
  abbrev init_stores : Config → Eff (Machine E) (Wiring P N T R (Machine E))
  init_stores cfg = if use_memory cfg.storage then init_memory o else init_storage lib cfg

  abbrev notifier : Notifier (Machine E)
  notifier = record {
    notify_new_parent = λ alert em m.
        world_part.set ((stub_notifier o).notify_new_parent alert em m.system.world) m;
    notify_resolved =
        λ alert em m. world_part.set ((stub_notifier o).notify_resolved alert em m.system.world) m;
  }

  module _ (codec : Codec) (text : Error → String) where
    -- The services, the handlers and the server, over what `w` holds.
    unfoldable pub wired : Config → Wiring P N T R (Machine E) → Dependencies A (Machine E)
    wired cfg w =
        let time_now = on_part world_part (now o) in
        let uuid_new = on_part world_part (new_id o) in
        record {
          server = new_server lib.fiber (record {
            config = cfg.server;
            event_manager_handler = record {
              repo = w.event_manager_repo;
              now = time_now;
              new_id = uuid_new;
              text = text;
            };
            grouping_rule_handler = record {
              repo = w.grouping_rule_repo;
              now = time_now;
              new_id = uuid_new;
              text = text;
            };
            alert_handler = record { repo = w.alert_repo; text = text };
            ingest_handler = record {
              producer = w.producer;
              event_manager_repo = w.event_manager_repo;
              grouping_rule_repo = w.grouping_rule_repo;
              now = time_now;
            };
          });
          processor = record {
            consumer = w.consumer;
            service = record {
              state_store = w.state_store;
              alert_repo = w.alert_repo;
              event_manager_repo = w.event_manager_repo;
              grouping_rule_repo = w.grouping_rule_repo;
              notifier = notifier;
              now = time_now;
              new_id = uuid_new;
            };
          };
        }

    -- `initDependencies`, whose cleanup function is the list of what it closes.
    unfoldable pub init_dependencies :
        Config → Eff (Machine E) (Dependencies A (Machine E) × List (Resource P N T R))
    init_dependencies cfg = do
      wiring ← init_stores cfg
      pure (wired cfg wiring, wiring.cleanup_funcs)

-- How main goes on from its configuration: it exits, or it starts the goroutines.
pub data Startup (P N T R A W : Type 0) : Type 0 where
  exits : (code : ℕ) → Startup P N T R A W
  starts : Dependencies A W → List (Resource P N T R) → Startup P N T R A W

module _ {C P N B T R A E : Type 0} (o : Outside) (lib : Platform C P N B T R A (Machine E))
    (codec : Codec) (text : Error → String) where
  abbrev after_init :
      Result (Dependencies A (Machine E) × List (Resource P N T R)) × Machine E
      → Startup P N T R A (Machine E) × Machine E
  after_init (err e, m) = (exits 1, m)
  after_init (ok (deps, funcs), m) = (starts deps funcs, m)

  -- main up to its goroutines, after `config.Load`.
  unfoldable pub start_up : Result Config → Machine E → Startup P N T R A (Machine E) × Machine E
  start_up (err e) m = (exits 1, m)
  start_up (ok cfg) m = after_init (init_dependencies o lib codec text cfg m)
