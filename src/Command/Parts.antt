-- ===== src/Command/Parts.antt =====
-- What cmd/argus/main.go works with: the memory of the process, the libraries, and what
-- `initDependencies` makes. Of a pointer that may be nil the libraries get the pointer.
use argus_go.Base.{String, Option, List, Eff}
use argus_go.Base.Map.{Map}
use argus_go.Store.{StateStore, AlertRepository, EventManagerRepository, GroupingRuleRepository}
use argus_go.Postgres.{Pool}
use argus_go.Postgres.Alerts.{AlertRow}
use argus_go.Postgres.EventManagers.{EventManagerRow}
use argus_go.Postgres.GroupingRules.{GroupingRuleRow}
use argus_go.Postgres.Database.{Pgx, Db}
use argus_go.Redis.{RedisClient, StateCodec}
use argus_go.Redis.Connection as RedisConnection
use argus_go.Queue.{Producer, Consumer}
use argus_go.Queue.Memory.{Context}
use argus_go.Queue.Kafka.{Conversions, KafkaMessage, Outcome}
use argus_go.Queue.Kafka.Connection as KafkaConnection
use argus_go.Queue.Kafka.Connection.{KafkaProducer, KafkaConsumer}
use argus_go.Processor.{Service}
use argus_go.Ingest.World.{System}
use argus_go.Api.Server.{Fiber, Server}

-- The memory of the process, with what the services and the network outside of it hold; `processing` is
-- the context that the processor runs with.
pub record Machine (E : Type 0) : Type 0 where
  pub outside : E
  pub system : System
  pub processing : Context

-- What the libraries do for the code: `C` is a configuration of a pool, `P` a pool, `N` a client of
-- Redis, `B` a payload for it, `T` a writer, `R` a reader and `A` an app. `rounds` is what the calls
-- of a consumer's loop will return.
pub record Platform (C P N B T R A W : Type 0) : Type 0 where
  pub pgx : Pgx C P W
  pub alert_rows : Option P → Pool AlertRow W
  pub event_manager_rows : Option P → Pool EventManagerRow W
  pub grouping_rule_rows : Option P → Pool GroupingRuleRow W
  pub redis : RedisConnection.Dialer N W
  pub commands : Option N → RedisClient B W
  pub state_codec : StateCodec B
  pub kafka : KafkaConnection.Dialer T R W
  pub write_messages : Option T → KafkaMessage → Eff W Unit
  pub rounds : Option R → List Outcome
  pub header_order : Map String → Map String
  pub conversions : Conversions
  pub fiber : Fiber A W

-- What a cleanup function closes.
pub data Resource (P N T R : Type 0) : Type 0 where
  in_memory_states in_memory_queue : Resource P N T R
  database : Db P → Resource P N T R
  redis_store : RedisConnection.Connection N → Resource P N T R
  kafka_producer : KafkaProducer T → Resource P N T R
  kafka_consumer : KafkaConsumer R → Resource P N T R

-- The variables of `initDependencies`.
pub record Wiring (P N T R W : Type 0) : Type 0 where
  pub state_store : StateStore W
  pub alert_repo : AlertRepository W
  pub event_manager_repo : EventManagerRepository W
  pub grouping_rule_repo : GroupingRuleRepository W
  pub producer : Producer W
  pub consumer : Consumer W
  pub cleanup_funcs : List (Resource P N T R)

-- `processor.Service`, whose methods over the stores are those of `Service`.
pub record ProcessorService (W : Type 0) : Type 0 where
  pub consumer : Consumer W
  pub service : Service W

pub record Dependencies (A W : Type 0) : Type 0 where
  pub server : Server A W
  pub processor : ProcessorService W
