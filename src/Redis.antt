-- ===== src/Redis.antt =====
-- internal/store/redis/state_store.go. The client of Redis and the JSON of the three states are
-- parameters, and so is the type `B` of the payloads that the JSON makes; `redis_nil` is the client's
-- `redis.Nil`.
pub mod Server
pub mod Keys
pub mod Represents
pub mod Commands
pub mod Replies
pub mod Refines
pub mod Connection
pub mod Samples
mod Tests
use Prim.Native.String as Text
use argus_go.Base.{
  ℕ, String, Bool, true, false, Option, none, some, List, Result, ok, err, Error, Eff, ◌>>=◌, ◌>>◌,
  pure, raise, attempt, if◌then◌else◌, is,
}
use argus_go.Base.Effect.{wrapped, or_wrapped, redis_nil}
use argus_go.Base.Int.{pos}
use argus_go.Domain.{Duration}
use argus_go.Store.{StateStore, ParentState, AlertState, PendingResolve}

-- The commands that the store calls; each returns what `Err`, `Bytes` or `Result` gives.
pub record RedisClient (B W : Type 0) : Type 0 where
  pub get : String → Eff W B
  pub set : String → B → Duration → Eff W Unit
  pub del : String → Eff W Unit
  pub s_add : String → String → Eff W Unit
  pub s_rem : String → String → Eff W Unit
  pub s_members : String → Eff W (List String)
  pub s_card : String → Eff W ℕ

pub record Json (B A : Type 0) : Type 0 where
  pub marshal : A → Result B
  pub unmarshal : B → Result A

pub record StateCodec (B : Type 0) : Type 0 where
  pub parent : Json B ParentState
  pub alert : Json B AlertState
  pub pending : Json B PendingResolve

abbrev pub prefix_parent : String
prefix_parent = "parent:"

abbrev pub prefix_alert : String
prefix_alert = "alert:"

abbrev pub prefix_children : String
prefix_children = "children:"

abbrev pub prefix_pending_resolve : String
prefix_pending_resolve = "pending:"

unfoldable pub parent_key : String → String → String → String
parent_key em key value =
    Text.◌++◌ prefix_parent (Text.◌++◌ em (Text.◌++◌ ":" (Text.◌++◌ key (Text.◌++◌ ":" value))))

unfoldable pub alert_key : String → String
alert_key k = Text.◌++◌ prefix_alert k

unfoldable pub children_key : String → String
children_key k = Text.◌++◌ prefix_children k

unfoldable pub pending_key : String → String
pending_key k = Text.◌++◌ prefix_pending_resolve k

abbrev pub is_nil : Error → Bool
is_nil redis_nil = true
is_nil _ = false

module _ {W : Type 0} where
  -- What a getter makes of the answer to GET: nothing of `redis.Nil`, else the decoded state.
  abbrev pub decoded : {A : Type 0} → String → Result A → Eff W (Option A)
  decoded message (ok a) = pure (some a)
  decoded message (err e) = raise (wrapped message e)

  abbrev pub fetched :
      {B A : Type 0} → String → String → (B → Result A) → Result B → Eff W (Option A)
  fetched failed malformed decode (ok bytes) = decoded malformed (decode bytes)
  fetched failed malformed decode (err e) =
      if is is_nil e then pure none else raise (wrapped failed e)

module _ {B W : Type 0} (client : RedisClient B W) (codec : StateCodec B) where
  unfoldable pub get_parent : String → String → String → Eff W (Option ParentState)
  get_parent em key value = do
    answer ← attempt (client.get (parent_key em key value))
    fetched "failed to get parent" "failed to unmarshal parent state" codec.parent.unmarshal answer

  unfoldable pub set_parent : String → String → String → ParentState → Duration → Eff W Unit
  set_parent em key value state ttl = do
    bytes ← or_wrapped "failed to marshal parent state" (codec.parent.marshal state)
    answer ← attempt (client.set (parent_key em key value) bytes ttl)
    or_wrapped "failed to set parent" answer

  unfoldable pub delete_parent : String → String → String → Eff W Unit
  delete_parent em key value = do
    answer ← attempt (client.del (parent_key em key value))
    or_wrapped "failed to delete parent" answer

  unfoldable pub get_alert : String → Eff W (Option AlertState)
  get_alert dedup_key = do
    answer ← attempt (client.get (alert_key dedup_key))
    fetched "failed to get alert" "failed to unmarshal alert state" codec.alert.unmarshal answer

  unfoldable pub set_alert : AlertState → Eff W Unit
  set_alert state = do
    bytes ← or_wrapped "failed to marshal alert state" (codec.alert.marshal state)
    answer ← attempt (client.set (alert_key state.dedup_key) bytes (pos 0))
    or_wrapped "failed to set alert" answer

  unfoldable pub delete_alert : String → Eff W Unit
  delete_alert dedup_key = do
    answer ← attempt (client.del (alert_key dedup_key))
    or_wrapped "failed to delete alert" answer

  unfoldable pub add_child : String → String → Eff W Unit
  add_child parent child = do
    answer ← attempt (client.s_add (children_key parent) child)
    or_wrapped "failed to add child" answer

  unfoldable pub remove_child : String → String → Eff W Unit
  remove_child parent child = do
    answer ← attempt (client.s_rem (children_key parent) child)
    or_wrapped "failed to remove child" answer

  unfoldable pub get_children : String → Eff W (List String)
  get_children parent = do
    answer ← attempt (client.s_members (children_key parent))
    or_wrapped "failed to get children" answer

  unfoldable pub get_child_count : String → Eff W ℕ
  get_child_count parent = do
    answer ← attempt (client.s_card (children_key parent))
    or_wrapped "failed to get child count" answer

  unfoldable pub set_pending_resolve : String → PendingResolve → Eff W Unit
  set_pending_resolve parent pending = do
    bytes ← or_wrapped "failed to marshal pending resolve" (codec.pending.marshal pending)
    answer ← attempt (client.set (pending_key parent) bytes (pos 0))
    or_wrapped "failed to set pending resolve" answer

  unfoldable pub get_pending_resolve : String → Eff W (Option PendingResolve)
  get_pending_resolve parent = do
    answer ← attempt (client.get (pending_key parent))
    fetched "failed to get pending resolve" "failed to unmarshal pending resolve"
        codec.pending.unmarshal answer

  unfoldable pub delete_pending_resolve : String → Eff W Unit
  delete_pending_resolve parent = do
    answer ← attempt (client.del (pending_key parent))
    or_wrapped "failed to delete pending resolve" answer

  abbrev pub redis_state_store : StateStore W
  redis_state_store = record {
    get_parent = get_parent;
    set_parent = set_parent;
    delete_parent = delete_parent;
    get_alert = get_alert;
    set_alert = set_alert;
    delete_alert = delete_alert;
    add_child = add_child;
    remove_child = remove_child;
    get_children = get_children;
    get_child_count = get_child_count;
    set_pending_resolve = set_pending_resolve;
    get_pending_resolve = get_pending_resolve;
    delete_pending_resolve = delete_pending_resolve;
  }
