-- ===== src/Redis/Server.antt =====
-- What a client of a Redis server that can be reached does, as its commands are documented. A key
-- holds a text of bytes, with or without an expiry, or a set; what has an expiry may be gone at any
-- time.
use argus_go.Base.{
  String, Bool, true, false, Option, none, some, List, ok, err, ◌≡◌, ◌⊎◌, ◌==◌, ◌&&◌, if◌then◌else◌,
}
use argus_go.Base.Effect.{redis_nil}
use argus_go.Base.Int.{pos}
use argus_go.Domain.{Duration}
use argus_go.Store.Contract.{has}
use argus_go.Redis.{RedisClient}

-- The payload that a key holds, and whether they last.
abbrev pub Entry : Type 0 → Type 0
Entry B = Option (B × Bool)

pub record IsServer {B W : Type 0} (client : RedisClient B W) (entry : W → String → Entry B)
    (member : W → String → String → Bool) : Type 0 where
  -- GET, of a key that holds a text or nothing
  pub get_missing :
      (w : W) (k : String)
      → entry w k ≡ none
      → ((x : String) → member w k x ≡ false)
      → (client.get k w).0 ≡ err redis_nil
  pub get_lasting :
      (w : W) (k : String) (v : B) → entry w k ≡ some (v, true) → (client.get k w).0 ≡ ok v
  pub get_expiring :
      (w : W) (k : String) (v : B)
      → entry w k ≡ some (v, false)
      → ((client.get k w).0 ≡ ok v) ⊎ ((client.get k w).0 ≡ err redis_nil)
  pub entry-get : (w : W) (k j : String) → entry (client.get k w).1 j ≡ entry w j
  pub member-get : (w : W) (k p x : String) → member (client.get k w).1 p x ≡ member w p x
  -- SET overwrites whatever the key holds; an expiration of zero is none.
  pub set_ok : (w : W) (k : String) (v : B) (ttl : Duration) → (client.set k v ttl w).0 ≡ ok tt
  pub entry-set_lasting :
      (w : W) (k j : String) (v : B)
      → entry (client.set k v (pos 0) w).1 j ≡ (if k == j then some (v, true) else entry w j)
  pub entry-set :
      (w : W) (k : String) (v : B) (ttl : Duration)
      → (lasts : Bool) × ((j : String)
          → entry (client.set k v ttl w).1 j ≡ (if k == j then some (v, lasts) else entry w j))
  pub member-set :
      (w : W) (k p x : String) (v : B) (ttl : Duration)
      → member (client.set k v ttl w).1 p x ≡ (if k == p then false else member w p x)
  -- DEL
  pub del_ok : (w : W) (k : String) → (client.del k w).0 ≡ ok tt
  pub entry-del :
      (w : W) (k j : String) → entry (client.del k w).1 j ≡ (if k == j then none else entry w j)
  pub member-del :
      (w : W) (k p x : String)
      → member (client.del k w).1 p x ≡ (if k == p then false else member w p x)
  -- SADD and SREM, on a key that holds no text
  pub s_add_ok : (w : W) (k x : String) → entry w k ≡ none → (client.s_add k x w).0 ≡ ok tt
  pub entry-s_add :
      (w : W) (k x j : String) → entry w k ≡ none → entry (client.s_add k x w).1 j ≡ entry w j
  pub member-s_add :
      (w : W) (k x p y : String)
      → entry w k ≡ none
      → member (client.s_add k x w).1 p y ≡ (if k == p && x == y then true else member w p y)
  pub s_rem_ok : (w : W) (k x : String) → entry w k ≡ none → (client.s_rem k x w).0 ≡ ok tt
  pub entry-s_rem :
      (w : W) (k x j : String) → entry w k ≡ none → entry (client.s_rem k x w).1 j ≡ entry w j
  pub member-s_rem :
      (w : W) (k x p y : String)
      → entry w k ≡ none
      → member (client.s_rem k x w).1 p y ≡ (if k == p && x == y then false else member w p y)
  -- SMEMBERS
  pub s_members :
      (w : W) (k : String)
      → entry w k ≡ none
      → (xs : List String) × ((client.s_members k w).0 ≡ ok xs)
        × ((x : String) → has x xs ≡ member w k x)
  pub entry-s_members : (w : W) (k j : String) → entry (client.s_members k w).1 j ≡ entry w j
  pub member-s_members :
      (w : W) (k p x : String) → member (client.s_members k w).1 p x ≡ member w p x
