-- ===== src/Command/Connections.antt =====
-- Which connections cmd/argus/main.go opens, and that it closes them. What the libraries open and close
-- is a hypothesis.

pub mod Opened
pub mod Closed
use argus_go.Base.{String, some, List, ◌∷◌, ok, ◌≡◌, ◌⊎◌}
use argus_go.Redis.Connection.{Options}
use argus_go.Queue.Kafka.Connection.{WriterConfig, ReaderConfig}
use argus_go.Command.{
  Machine, Platform, Resource, database, redis_store, kafka_producer, kafka_consumer,
}

-- What holds a connection: a pool, a client of Redis, a writer or a reader.
pub data Handle (P N T R : Type 0) : Type 0 where
  pool : P → Handle P N T R
  client : N → Handle P N T R
  writer : T → Handle P N T R
  reader : R → Handle P N T R

module _ {P N T R : Type 0} where
  -- Closing `r` closes the connection `h`.
  pub data Closes : Resource P N T R → Handle P N T R → Type 0 where
    closes_pool : (p : P) → Closes (database (record { pool = some p })) (pool p)
    closes_client : (n : N) → Closes (redis_store (record { client = some n })) (client n)
    closes_writer : (t : T) → Closes (kafka_producer (record { writer = some t })) (writer t)
    closes_reader : (r : R) → Closes (kafka_consumer (record { reader = some r })) (reader r)

  -- One of the resources closes the connection.
  pub data Covered (h : Handle P N T R) : List (Resource P N T R) → Type 0 where
    first : {r : Resource P N T R} {l : List (Resource P N T R)} → Closes r h → Covered h (r ∷ l)
    later : {r : Resource P N T R} {l : List (Resource P N T R)} → Covered h l → Covered h (r ∷ l)

-- What pgxpool, go-redis, kafka-go and fiber document: a constructor opens at most what it returns, a
-- `Close` closes its connection, and nothing else opens any. `IsOpen` looks outside of the process.
pub record IsTracked {C P N B T R A E : Type 0} (lib : Platform C P N B T R A (Machine E))
    (IsOpen : E → Handle P N T R → Type 0) : Type 0 where
  pub new_with_config :
      (c : C) (m : Machine E) (h : Handle P N T R)
      → IsOpen (lib.pgx.new_with_config c m).1.outside h
      → IsOpen m.outside h ⊎ ((p : P) × ((lib.pgx.new_with_config c m).0 ≡ ok p) × (h ≡ pool p))
  pub ping_pool :
      (p : P) (m : Machine E) (h : Handle P N T R)
      → IsOpen (lib.pgx.ping p m).1.outside h
      → IsOpen m.outside h
  pub exec :
      (p : P) (text : String) (m : Machine E) (h : Handle P N T R)
      → IsOpen (lib.pgx.exec p text m).1.outside h
      → IsOpen m.outside h
  pub close_pool :
      (p : P) (m : Machine E) (h : Handle P N T R)
      → IsOpen (lib.pgx.close p m).outside h
      → IsOpen m.outside h
  pub pool_closed : (p : P) (m : Machine E) → ¬ IsOpen (lib.pgx.close p m).outside (pool p)
  pub new_client :
      (options : Options) (m : Machine E) (h : Handle P N T R)
      → IsOpen (lib.redis.new_client options m).1.outside h
      → IsOpen m.outside h ⊎ (h ≡ client (lib.redis.new_client options m).0)
  pub ping_client :
      (n : N) (m : Machine E) (h : Handle P N T R)
      → IsOpen (lib.redis.ping n m).1.outside h
      → IsOpen m.outside h
  pub close_client :
      (n : N) (m : Machine E) (h : Handle P N T R)
      → IsOpen (lib.redis.close n m).1.outside h
      → IsOpen m.outside h
  pub client_closed : (n : N) (m : Machine E) → ¬ IsOpen (lib.redis.close n m).1.outside (client n)
  pub new_writer :
      (config : WriterConfig) (m : Machine E) (h : Handle P N T R)
      → IsOpen (lib.kafka.new_writer config m).1.outside h
      → IsOpen m.outside h ⊎ (h ≡ writer (lib.kafka.new_writer config m).0)
  pub close_writer :
      (t : T) (m : Machine E) (h : Handle P N T R)
      → IsOpen (lib.kafka.close_writer t m).1.outside h
      → IsOpen m.outside h
  pub writer_closed :
      (t : T) (m : Machine E) → ¬ IsOpen (lib.kafka.close_writer t m).1.outside (writer t)
  pub new_reader :
      (config : ReaderConfig) (m : Machine E) (h : Handle P N T R)
      → IsOpen (lib.kafka.new_reader config m).1.outside h
      → IsOpen m.outside h ⊎ (h ≡ reader (lib.kafka.new_reader config m).0)
  pub close_reader :
      (r : R) (m : Machine E) (h : Handle P N T R)
      → IsOpen (lib.kafka.close_reader r m).1.outside h
      → IsOpen m.outside h
  pub reader_closed :
      (r : R) (m : Machine E) → ¬ IsOpen (lib.kafka.close_reader r m).1.outside (reader r)
  pub shutdown :
      (app : A) (m : Machine E) (h : Handle P N T R)
      → IsOpen (lib.fiber.shutdown_with_context app m).1.outside h
      → IsOpen m.outside h
