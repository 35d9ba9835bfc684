-- ===== src/Config.antt =====
-- internal/config/config.go. A port, a count or a duration is the integer that Go holds. Reading the
-- file, cleaning its path and decoding YAML are parameters.
pub mod Defaults
mod Tests
use Prim.Native.String as Text
use argus_go.Base.{
  ℕ, zero, suc, ◌+◌, ◌/◌, ◌%◌, ◌*◌, String, Bool, ◌||◌, Option, none, some, List, [], ◌∷◌, Result,
  ok, err, Error, ◌==◌, if◌then◌else◌, ltb,
}
use argus_go.Base.Effect.{wrapped}
use argus_go.Base.Lists.{drop}
use argus_go.Base.Int.{ℤ, pos, negsuc}
use argus_go.Domain.{Duration}

abbrev pub StorageMode : Type 0
StorageMode = String

abbrev pub storage_mode_memory : StorageMode
storage_mode_memory = "memory"

abbrev pub storage_mode_storage : StorageMode
storage_mode_storage = "storage"

-- `StorageMode.IsValid`
unfoldable pub storage_mode_is_valid : StorageMode → Bool
storage_mode_is_valid m = m == storage_mode_memory || m == storage_mode_storage

pub record StorageConfig : Type 0 where
  pub mode : StorageMode

abbrev pub use_memory : StorageConfig → Bool
use_memory c = c.mode == storage_mode_memory

abbrev pub use_storage : StorageConfig → Bool
use_storage c = c.mode == storage_mode_storage

pub record ServerConfig : Type 0 where
  pub host : String
  pub port : ℤ
  pub read_timeout : Duration
  pub write_timeout : Duration
  pub idle_timeout : Duration

pub record KafkaConfig : Type 0 where
  pub brokers : List String
  pub topic : String
  pub consumer_group : String
  pub partition_count : ℤ

pub record RedisConfig : Type 0 where
  pub host : String
  pub port : ℤ
  pub password : String
  pub db : ℤ

pub record PostgresConfig : Type 0 where
  pub host : String
  pub port : ℤ
  pub user : String
  pub password : String
  pub database : String
  pub ssl_mode : String
  pub max_open_conns : ℤ
  pub max_idle_conns : ℤ

pub record LoggerConfig : Type 0 where
  pub level : String
  pub format : String

pub record Config : Type 0 where
  pub storage : StorageConfig
  pub server : ServerConfig
  pub kafka : KafkaConfig
  pub redis : RedisConfig
  pub postgres : PostgresConfig
  pub logger : LoggerConfig

-- `if x == "" { x = d }`, and the same for an integer and for a list of texts.
abbrev pub or_text : String → String → String
or_text x d = if x == "" then d else x

abbrev pub or_number : ℤ → ℤ → ℤ
or_number (pos zero) d = d
or_number (pos (suc n)) d = pos (suc n)
or_number (negsuc n) d = negsuc n

abbrev pub or_list : List String → List String → List String
or_list [] d = d
or_list (x ∷ l) d = x ∷ l

-- `time.Second`, in nanoseconds.
abbrev pub second : ℕ
second = 1_000_000_000

unfoldable pub apply_defaults : Config → Config
apply_defaults cfg = record {
  storage = record { mode = or_text cfg.storage.mode storage_mode_memory };
  server = record {
    host = or_text cfg.server.host "0.0.0.0";
    port = or_number cfg.server.port (pos 8080);
    read_timeout = or_number cfg.server.read_timeout (pos (10 * second));
    write_timeout = or_number cfg.server.write_timeout (pos (10 * second));
    idle_timeout = or_number cfg.server.idle_timeout (pos (120 * second));
  };
  kafka = record {
    brokers = or_list cfg.kafka.brokers ("localhost:9092" ∷ []);
    topic = or_text cfg.kafka.topic "argus-events";
    consumer_group = or_text cfg.kafka.consumer_group "argus-processor";
    partition_count = or_number cfg.kafka.partition_count (pos 32);
  };
  redis = record cfg.redis {
    host = or_text cfg.redis.host "localhost";
    port = or_number cfg.redis.port (pos 6379);
  };
  postgres = record cfg.postgres {
    host = or_text cfg.postgres.host "localhost";
    port = or_number cfg.postgres.port (pos 5432);
    ssl_mode = or_text cfg.postgres.ssl_mode "disable";
    max_open_conns = or_number cfg.postgres.max_open_conns (pos 25);
    max_idle_conns = or_number cfg.postgres.max_idle_conns (pos 5);
  };
  logger = record {
    level = or_text cfg.logger.level "info";
    format = or_text cfg.logger.format "json";
  };
}

-- `Load`, with the contents of the file at the cleaned path and the decoder of YAML.
unfoldable pub load :
    (clean : String → String) (read_file : String → Result (List ℕ))
    (unmarshal : List ℕ → Result Config)
    → String
    → Result Config
load clean read_file unmarshal path = elim (read_file (clean path)) [
  | err e ↦ err (wrapped "failed to read config file" e)
  | ok bytes ↦ elim (unmarshal bytes) [
    | err e ↦ err (wrapped "failed to parse config file" e)
    | ok cfg ↦ ok (apply_defaults cfg)
  ]
]

abbrev decimal_digits : List String
decimal_digits = "0" ∷ "1" ∷ "2" ∷ "3" ∷ "4" ∷ "5" ∷ "6" ∷ "7" ∷ "8" ∷ "9" ∷ []

abbrev digit_at : List String → String
digit_at [] = ""
digit_at (d ∷ _) = d

-- The digits of a number below 10 ^ k, for k at least 1.
unfoldable natural : ℕ → ℕ → String
natural zero n = ""
natural (suc k) n =
    let rest = natural k (n / 10) in
    let last = digit_at (drop (n % 10) decimal_digits) in
    if ltb n 10 then last else Text.◌++◌ rest last

-- `%d` of an int64, which has 19 digits at most.
unfoldable pub decimal : ℤ → String
unfolding natural
decimal (pos n) = natural 19 n
decimal (negsuc n) = Text.◌++◌ "-" (natural 19 (suc n))

abbrev host_port : String → ℤ → String
host_port host port = Text.◌++◌ host (Text.◌++◌ ":" (decimal port))

-- `ServerConfig.Address`
unfoldable pub address : ServerConfig → String
unfolding decimal
address c = host_port c.host c.port

-- `RedisConfig.RedisAddr`
unfoldable pub redis_addr : RedisConfig → String
unfolding decimal
redis_addr c = host_port c.host c.port

-- `PostgresConfig.DSN`
unfoldable pub dsn : PostgresConfig → String
unfolding decimal
dsn c = Text.◌++◌ "host=" (
    Text.◌++◌ c.host (
      Text.◌++◌ " port=" (
        Text.◌++◌ (decimal c.port) (
          Text.◌++◌ " user=" (
            Text.◌++◌ c.user (
              Text.◌++◌ " password=" (
                Text.◌++◌ c.password (
                  Text.◌++◌ " dbname="
                    (Text.◌++◌ c.database (Text.◌++◌ " sslmode=" c.ssl_mode))))))))))
