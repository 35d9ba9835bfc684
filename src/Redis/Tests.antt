-- ===== src/Redis/Tests.antt =====
-- The store of internal/store/redis/state_store.go over the server of Redis.Samples.
use argus_go.Store.Contract.{Implements}
use argus_go.Redis.{redis_state_store}
use argus_go.Redis.Commands.{Holds}
use argus_go.Redis.Refines.{redis_state_store-Implements}
use argus_go.Redis.Samples.{client, codec, entry, member, client-IsServer, codec-IsCodec}

redis_state_store-Implements_example :
    Implements (redis_state_store client codec) (Holds client codec entry member)
redis_state_store-Implements_example =
    redis_state_store-Implements client codec entry member client-IsServer codec-IsCodec
