-- ===== src/Redis/Connection.antt =====
-- `NewStateStore` and `Close` of internal/store/redis/state_store.go: how the store gets its client.
-- Making a client of go-redis, its PING and its `Close` are parameters.
use argus_go.Base.{String, Option, none, some, Eff, ◌>>=◌, ◌>>◌, pure, attempt}
use argus_go.Base.Effect.{or_wrapped}
use argus_go.Base.Int.{ℤ}
use argus_go.Config.{RedisConfig, redis_addr}

-- `redis.Options`, as far as the store sets them.
pub record Options : Type 0 where
  pub addr : String
  pub password : String
  pub db : ℤ

-- What go-redis does for a client `C`.
pub record Dialer (C W : Type 0) : Type 0 where
  pub new_client : Options → W → C × W
  pub ping : C → Eff W Unit
  pub close : C → Eff W Unit

-- The store's field `client`, which may be nil.
pub record Connection (C : Type 0) : Type 0 where
  pub client : Option C

unfoldable pub options : RedisConfig → Options
unfolding redis_addr
options cfg = record { addr = redis_addr cfg; password = cfg.password; db = cfg.db }

module _ {C W : Type 0} (dialer : Dialer C W) where
  -- The end of `NewStateStore`, after `NewClient`.
  abbrev verified : C → Eff W (Connection C)
  verified client = do
    answer ← attempt (dialer.ping client)
    or_wrapped "failed to connect to redis" answer
    pure (record { client = some client })

  unfoldable pub new_state_store : RedisConfig → Eff W (Connection C)
  unfolding options
  new_state_store cfg w = let (client, w') = dialer.new_client (options cfg) w in verified client w'

  abbrev close_client : Option C → Eff W Unit
  close_client none = pure tt
  close_client (some client) = dialer.close client

  unfoldable pub close : Connection C → Eff W Unit
  close s = close_client s.client
