-- ===== src/Postgres/Database.antt =====
-- internal/store/postgres/db.go: the pool of connections and the schema. pgxpool is a parameter, and a
-- statement is a text with its white space collapsed.
use Prim.Native.String as Text
use argus_go.Base.{
  ℕ, ◌*◌, String, Option, none, some, Result, ok, err, Eff, ◌>>=◌, raise, attempt, List, [], ◌∷◌,
}
use argus_go.Base.Effect.{wrapped, or_wrapped, panic}
use argus_go.Base.Int.{ℤ, pos}
use argus_go.Domain.{Duration}
use argus_go.Config.{PostgresConfig, decimal, second}
use argus_go.Postgres.{executed}

-- The fields of `pgxpool.Config` that `NewDB` sets.
pub record Limits : Type 0 where
  pub max_conns : ℤ
  pub min_conns : ℤ
  pub max_conn_lifetime : Duration

-- What pgxpool does: `C` is its configuration and `P` a pool.
pub record Pgx (C P W : Type 0) : Type 0 where
  pub parse_config : String → Result C
  pub with_limits : C → Limits → C
  pub new_with_config : C → Eff W P
  pub ping : P → Eff W Unit
  pub exec : P → String → Eff W ℕ
  pub close : P → W → W

-- The pointer `pool`, which may be nil.
pub record Db (P : Type 0) : Type 0 where
  pub pool : Option P

abbrev joined : List String → String
joined [] = ""
joined (s ∷ l) = Text.◌++◌ s (joined l)

unfoldable pub conn_string : PostgresConfig → String
unfolding decimal
conn_string cfg = joined (
    "postgres://"
    ∷ cfg.user
    ∷ ":"
    ∷ cfg.password
    ∷ "@"
    ∷ cfg.host
    ∷ ":"
    ∷ decimal cfg.port
    ∷ "/"
    ∷ cfg.database
    ∷ "?sslmode="
    ∷ cfg.ssl_mode
    ∷ "&pool_max_conns="
    ∷ decimal cfg.max_open_conns
    ∷ [])

abbrev pub limits : PostgresConfig → Limits
limits cfg = record {
  max_conns = cfg.max_open_conns;
  min_conns = cfg.max_idle_conns;
  max_conn_lifetime = pos (3600 * second);
}

abbrev create_alerts : String
create_alerts =
    "CREATE TABLE IF NOT EXISTS alerts ( id VARCHAR(36) PRIMARY KEY, dedup_key VARCHAR(255) UNIQUE NOT NULL, event_manager_id VARCHAR(36) NOT NULL, summary TEXT NOT NULL, severity VARCHAR(20) NOT NULL, class VARCHAR(100) NOT NULL, type VARCHAR(20) NOT NULL, status VARCHAR(20) NOT NULL, parent_dedup_key VARCHAR(255), child_count INTEGER DEFAULT 0, resolve_requested BOOLEAN DEFAULT FALSE, created_at TIMESTAMP WITH TIME ZONE NOT NULL, updated_at TIMESTAMP WITH TIME ZONE NOT NULL, resolved_at TIMESTAMP WITH TIME ZONE );"

abbrev create_indexes : String
create_indexes =
    " CREATE INDEX IF NOT EXISTS idx_alerts_event_manager ON alerts(event_manager_id); CREATE INDEX IF NOT EXISTS idx_alerts_status ON alerts(status); CREATE INDEX IF NOT EXISTS idx_alerts_parent ON alerts(parent_dedup_key); CREATE INDEX IF NOT EXISTS idx_alerts_type ON alerts(type);"

abbrev create_event_managers : String
create_event_managers =
    " CREATE TABLE IF NOT EXISTS event_managers ( id VARCHAR(36) PRIMARY KEY, name VARCHAR(255) NOT NULL, description TEXT, grouping_rule_id VARCHAR(36) NOT NULL, webhook_url TEXT, created_at TIMESTAMP WITH TIME ZONE NOT NULL, updated_at TIMESTAMP WITH TIME ZONE NOT NULL );"

abbrev create_grouping_rules : String
create_grouping_rules =
    " CREATE TABLE IF NOT EXISTS grouping_rules ( id VARCHAR(36) PRIMARY KEY, name VARCHAR(255) NOT NULL, grouping_key VARCHAR(100) NOT NULL, time_window_minutes INTEGER NOT NULL, created_at TIMESTAMP WITH TIME ZONE NOT NULL, updated_at TIMESTAMP WITH TIME ZONE NOT NULL );"

unfoldable pub schema : String
schema =
    joined (create_alerts ∷ create_indexes ∷ create_event_managers ∷ create_grouping_rules ∷ [])

module _ {C P W : Type 0} (pgx : Pgx C P W) where
  -- What `NewDB` makes of the answer to its ping: a pool that cannot be reached is closed.
  abbrev pub verified : P → Result (Unit {0}) → Eff W (Db P)
  verified pool (ok a) w = (ok (record { pool = some pool }), w)
  verified pool (err e) w = (err (wrapped "failed to ping postgres" e), pgx.close pool w)

  unfoldable pub new_db : PostgresConfig → Eff W (Db P)
  unfolding conn_string
  new_db cfg = do
    pool_config ← or_wrapped "failed to parse postgres config" (pgx.parse_config (conn_string cfg))
    made ← attempt (pgx.new_with_config (pgx.with_limits pool_config (limits cfg)))
    pool ← or_wrapped "failed to create postgres pool" made
    pinged ← attempt (pgx.ping pool)
    verified pool pinged

  abbrev close_pool : Option P → W → W
  close_pool none w = w
  close_pool (some pool) w = pgx.close pool w

  unfoldable pub close : Db P → W → W
  close db w = close_pool db.pool w

  -- `Exec` on the pool; on a nil pool it would panic.
  abbrev pub exec_on : Option P → String → Eff W ℕ
  exec_on none text = raise (panic "invalid memory address or nil pointer dereference")
  exec_on (some pool) text = pgx.exec pool text

  unfoldable pub run_migrations : Db P → Eff W Unit
  unfolding schema
  run_migrations db = do
    answer ← attempt (exec_on db.pool schema)
    executed "failed to run migrations" answer
