-- ===== src/Config/Defaults.antt =====
-- What `Load` of internal/config/config.go returns.
use argus_go.Base.{
  ℕ, zero, suc, String, List, [], ◌∷◌, Result, ok, ◌≡◌, ◌≢◌, refl, arith, eq_iff, Result-cases, inl,
  inr,
}
use argus_go.Base.Int.{ℤ, pos, negsuc}
use argus_go.Config.{Config, or_text, or_number, or_list, apply_defaults, load}

or_text_kept : (x d : String) → x ≢ "" → or_text x d ≡ x
or_text_kept x d h = ground (arith, eq_iff x "", h)

or_number_kept : (x d : ℤ) → x ≢ pos 0 → or_number x d ≡ x
or_number_kept (pos zero) d h = absurd (h refl)
or_number_kept (pos (suc n)) d h = refl
or_number_kept (negsuc n) d h = refl

or_list_kept : (l d : List String) → l ≢ [] → or_list l d ≡ l
or_list_kept [] d h = absurd (h refl)
or_list_kept (x ∷ l) d h = refl

-- Every field that has a default is set.
pub record IsComplete (c : Config) : Type 0 where
  pub mode : c.storage.mode ≢ ""
  pub server_host : c.server.host ≢ ""
  pub server_port : c.server.port ≢ pos 0
  pub read_timeout : c.server.read_timeout ≢ pos 0
  pub write_timeout : c.server.write_timeout ≢ pos 0
  pub idle_timeout : c.server.idle_timeout ≢ pos 0
  pub brokers : c.kafka.brokers ≢ []
  pub topic : c.kafka.topic ≢ ""
  pub consumer_group : c.kafka.consumer_group ≢ ""
  pub partition_count : c.kafka.partition_count ≢ pos 0
  pub redis_host : c.redis.host ≢ ""
  pub redis_port : c.redis.port ≢ pos 0
  pub postgres_host : c.postgres.host ≢ ""
  pub postgres_port : c.postgres.port ≢ pos 0
  pub ssl_mode : c.postgres.ssl_mode ≢ ""
  pub max_open_conns : c.postgres.max_open_conns ≢ pos 0
  pub max_idle_conns : c.postgres.max_idle_conns ≢ pos 0
  pub level : c.logger.level ≢ ""
  pub format : c.logger.format ≢ ""

or_text-ne : (x d : String) → d ≢ "" → or_text x d ≢ ""
or_text-ne x d h e = ground (arith, eq_iff x "", h)

or_number-ne : (x : ℤ) (n : ℕ) → or_number x (pos (suc n)) ≢ pos 0
or_number-ne (pos zero) n e = absurd (cc e)
or_number-ne (pos (suc m)) n e = absurd (cc e)
or_number-ne (negsuc m) n e = absurd (cc e)

or_list-ne : (l : List String) (x : String) → or_list l (x ∷ []) ≢ []
or_list-ne [] x e = absurd (cc e)
or_list-ne (y ∷ l) x e = absurd (cc e)

apply_defaults-IsComplete : (c : Config) → IsComplete (apply_defaults c)
unfolding apply_defaults
apply_defaults-IsComplete c = record {
  mode = or_text-ne c.storage.mode "memory" (λ e. ground (arith, eq_iff "memory" ""));
  server_host = or_text-ne c.server.host "0.0.0.0" (λ e. ground (arith, eq_iff "0.0.0.0" ""));
  server_port = or_number-ne _ _;
  read_timeout = or_number-ne _ _;
  write_timeout = or_number-ne _ _;
  idle_timeout = or_number-ne _ _;
  brokers = or_list-ne _ _;
  topic = or_text-ne c.kafka.topic "argus-events" (λ e. ground (arith, eq_iff "argus-events" ""));
  consumer_group =
      or_text-ne c.kafka.consumer_group "argus-processor"
        (λ e. ground (arith, eq_iff "argus-processor" ""));
  partition_count = or_number-ne _ _;
  redis_host = or_text-ne c.redis.host "localhost" (λ e. ground (arith, eq_iff "localhost" ""));
  redis_port = or_number-ne _ _;
  postgres_host =
      or_text-ne c.postgres.host "localhost" (λ e. ground (arith, eq_iff "localhost" ""));
  postgres_port = or_number-ne _ _;
  ssl_mode = or_text-ne c.postgres.ssl_mode "disable" (λ e. ground (arith, eq_iff "disable" ""));
  max_open_conns = or_number-ne _ _;
  max_idle_conns = or_number-ne _ _;
  level = or_text-ne c.logger.level "info" (λ e. ground (arith, eq_iff "info" ""));
  format = or_text-ne c.logger.format "json" (λ e. ground (arith, eq_iff "json" ""));
}

apply_defaults_of_complete : (c : Config) → IsComplete c → apply_defaults c ≡ c
unfolding apply_defaults
apply_defaults_of_complete c v = cc (
  or_text_kept c.storage.mode "memory" v.mode,
  or_text_kept c.server.host "0.0.0.0" v.server_host,
  or_number_kept c.server.port (pos 8080) v.server_port,
  or_number_kept c.server.read_timeout (pos 10_000_000_000) v.read_timeout,
  or_number_kept c.server.write_timeout (pos 10_000_000_000) v.write_timeout,
  or_number_kept c.server.idle_timeout (pos 120_000_000_000) v.idle_timeout,
  or_list_kept c.kafka.brokers ("localhost:9092" ∷ []) v.brokers,
  or_text_kept c.kafka.topic "argus-events" v.topic,
  or_text_kept c.kafka.consumer_group "argus-processor" v.consumer_group,
  or_number_kept c.kafka.partition_count (pos 32) v.partition_count,
  or_text_kept c.redis.host "localhost" v.redis_host,
  or_number_kept c.redis.port (pos 6379) v.redis_port,
  or_text_kept c.postgres.host "localhost" v.postgres_host,
  or_number_kept c.postgres.port (pos 5432) v.postgres_port,
  or_text_kept c.postgres.ssl_mode "disable" v.ssl_mode,
  or_number_kept c.postgres.max_open_conns (pos 25) v.max_open_conns,
  or_number_kept c.postgres.max_idle_conns (pos 5) v.max_idle_conns,
  or_text_kept c.logger.level "info" v.level,
  or_text_kept c.logger.format "json" v.format,
)

-- What Load returns has a value in every field that has a default, and applying the defaults to it
-- again changes nothing.
pub load-IsComplete :
    (clean : String → String) (read_file : String → Result (List ℕ))
    (unmarshal : List ℕ → Result Config) (path : String) (c : Config)
    → load clean read_file unmarshal path ≡ ok c
    → IsComplete c × (apply_defaults c ≡ c)
unfolding load
load-IsComplete clean read_file unmarshal path c loaded =
    elim (Result-cases (read_file (clean path))) [
      | inr (e, unread) ↦ absurd (cc (loaded, unread))
      | inl (bytes, is_read) ↦ elim (Result-cases (unmarshal bytes)) [
        | inr (e, malformed) ↦ absurd (cc (loaded, is_read, malformed))
        | inl (cfg, decoded) ↦
            let same : apply_defaults cfg ≡ c = cc (loaded, is_read, decoded) in
            let complete : IsComplete c = rw (← same) (apply_defaults-IsComplete cfg) in
            (complete, apply_defaults_of_complete c complete)
      ]
    ]
