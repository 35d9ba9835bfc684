-- ===== src/Redis/Refines.antt =====
-- internal/store/redis/state_store.go does what internal/store/state_store.go promises: over a server
-- that can be reached, and with JSON that reads back what it writes, the store implements the contract
-- of a state store.
use argus_go.Base.{String, Bool}
use argus_go.Store.Contract.{Implements}
use argus_go.Redis.{RedisClient, StateCodec, redis_state_store}
use argus_go.Redis.Commands.{
  Holds, set_alert-Leaves, set_pending_resolve-Leaves, set_parent-Leaves, delete_alert-Leaves,
  delete_pending_resolve-Leaves, delete_parent-Leaves, add_child-Leaves, remove_child-Leaves,
}
use argus_go.Redis.Replies.{
  get_alert-Gives, get_pending_resolve-Gives, get_parent-Gives, get_children-Gives,
}
use argus_go.Redis.Server.{Entry, IsServer}
use argus_go.Redis.Represents.{IsCodec}

module _ {B W : Type 0} (client : RedisClient B W) (codec : StateCodec B)
    (entry : W → String → Entry B) (member : W → String → String → Bool) where
  module _ (server : IsServer client entry member) (json : IsCodec codec) where
    -- Over a server of Redis that can be reached, and a codec that reads back what it writes, the
    -- Redis state store implements the contract of a state store: every setter and deleter, and every
    -- getter but GetChildCount, succeeds and does to the content what its name says and nothing else,
    -- where the years of the times that it stores have four digits; GetParent returns the last parent
    -- set for its grouping, or nothing.
    pub redis_state_store-Implements :
        Implements (redis_state_store client codec) (Holds client codec entry member)
    redis_state_store-Implements = record {
      get_parent = get_parent-Gives client codec entry member server;
      set_parent = set_parent-Leaves client codec entry member server json;
      delete_parent = delete_parent-Leaves client codec entry member server json;
      get_alert = get_alert-Gives client codec entry member server;
      set_alert = set_alert-Leaves client codec entry member server json;
      delete_alert = delete_alert-Leaves client codec entry member server json;
      add_child = add_child-Leaves client codec entry member server json;
      remove_child = remove_child-Leaves client codec entry member server json;
      get_children = get_children-Gives client codec entry member server;
      set_pending_resolve = set_pending_resolve-Leaves client codec entry member server json;
      get_pending_resolve = get_pending_resolve-Gives client codec entry member server;
      delete_pending_resolve = delete_pending_resolve-Leaves client codec entry member server json;
    }
