-- ===== src/Redis/Samples.antt =====
-- A server of Redis in memory, and a codec, over which the store of
-- internal/store/redis/state_store.go can run.
use argus_go.Base.{
  zero, suc, String, Bool, true, false, none, some, List, [], ◌∷◌, Result, ok, err, ◌≡◌, refl, ap,
  inl, arith, eq_iff, ◌==◌, if◌then◌else◌,
}
use argus_go.Base.Effect.{redis_nil, external}
use argus_go.Base.Int.{pos, negsuc}
use argus_go.Domain.{Duration}
use argus_go.Store.{ParentState, AlertState, PendingResolve}
use argus_go.Store.Contract.{has, nothing}
use argus_go.Redis.{RedisClient, StateCodec}
use argus_go.Redis.Server.{Entry, IsServer}
use argus_go.Redis.Represents.{IsCodec}
use argus_go.Redis.Commands.{Holds}

pub data Payload : Type 0 where
  of_parent : ParentState → Payload
  of_alert : AlertState → Payload
  of_pending : PendingResolve → Payload

abbrev read_parent : Payload → Result ParentState
read_parent (of_parent p) = ok p
read_parent _ = err (external "json")

abbrev read_alert : Payload → Result AlertState
read_alert (of_alert a) = ok a
read_alert _ = err (external "json")

abbrev read_pending : Payload → Result PendingResolve
read_pending (of_pending p) = ok p
read_pending _ = err (external "json")

abbrev pub codec : StateCodec Payload
codec = record {
  parent = record { marshal = λ p. ok (of_parent p); unmarshal = read_parent };
  alert = record { marshal = λ a. ok (of_alert a); unmarshal = read_alert };
  pending = record { marshal = λ p. ok (of_pending p); unmarshal = read_pending };
}

pub codec-IsCodec : IsCodec codec
codec-IsCodec = record {
  parent = λ p in_range. (of_parent p, refl, refl);
  alert = λ a. (of_alert a, refl, refl);
  pending = λ p in_range. (of_pending p, refl, refl);
}

pub record Server : Type 0 where
  entries : String → Entry Payload
  sets : String → List String

abbrev reply : Entry Payload → Result Payload
reply none = err redis_nil
reply (some (l, lasts)) = ok l

abbrev at : {A : Type 0} → (String → A) → String → A → String → A
at f k a j = if k == j then a else f j

unfoldable pub remove : String → List String → List String
remove x [] = []
remove x (y ∷ ys) = let rest = remove x ys in if y == x then rest else y ∷ rest

has-remove :
    (x y : String) (ys : List String) → has y (remove x ys) ≡ (if x == y then false else has y ys)
unfolding has remove
has-remove x y [] = ground arith
has-remove x y (z ∷ zs) = ground (arith, eq_iff z x, eq_iff z y, eq_iff x y, has-remove x y zs)

abbrev lasts : Duration → Bool
lasts (pos zero) = true
lasts (pos (suc n)) = false
lasts (negsuc n) = true

abbrev pub client : RedisClient Payload Server
client = record {
  get = λ k w. (reply (w.entries k), w);
  set = λ k l ttl w.
      (ok tt, record { entries = at w.entries k (some (l, lasts ttl)); sets = at w.sets k [] });
  del = λ k w. (ok tt, record { entries = at w.entries k none; sets = at w.sets k [] });
  s_add = λ k x w. (ok tt, record w { sets = at w.sets k (x ∷ w.sets k) });
  s_rem = λ k x w. (ok tt, record w { sets = at w.sets k (remove x (w.sets k)) });
  s_members = λ k w. (ok (w.sets k), w);
  s_card = λ k w. (ok 0, w);
}

abbrev pub entry : Server → String → Entry Payload
entry w k = w.entries k

abbrev pub member : Server → String → String → Bool
member w k x = has x (w.sets k)

emptied :
    (w : Server) (k p x : String)
    → has x (at w.sets k [] p) ≡ (if k == p then false else has x (w.sets p))
unfolding has
emptied w k p x = ground arith

pub client-IsServer : IsServer client entry member
unfolding has
client-IsServer = record {
  get_missing = λ w k absent no_set. ap reply absent;
  get_lasting = λ w k v there. ap reply there;
  get_expiring = λ w k v there. inl (ap reply there);
  entry-get = λ w k j. refl;
  member-get = λ w k p x. refl;
  set_ok = λ w k v ttl. refl;
  entry-set_lasting = λ w k j v. refl;
  entry-set = λ w k v ttl. (lasts ttl, λ j. refl);
  member-set = λ w k p x v ttl. emptied w k p x;
  del_ok = λ w k. refl;
  entry-del = λ w k j. refl;
  member-del = λ w k p x. emptied w k p x;
  s_add_ok = λ w k x free. refl;
  entry-s_add = λ w k x j free. refl;
  member-s_add = λ w k x p y free. ground (arith, eq_iff k p);
  s_rem_ok = λ w k x free. refl;
  entry-s_rem = λ w k x j free. refl;
  member-s_rem = λ w k x p y free. ground (arith, eq_iff k p, has-remove x y (w.sets k));
  s_members = λ w k free. (w.sets k, refl, λ x. refl);
  entry-s_members = λ w k j. refl;
  member-s_members = λ w k p x. refl;
}

-- A new server has nothing.
abbrev pub empty_server : Server
empty_server = record { entries = λ k. none; sets = λ k. [] }

pub empty_server-Holds : Holds client codec entry member empty_server nothing
unfolding has
empty_server-Holds = record {
  windows = λ g. tt;
  alerts = λ k. tt;
  pending = λ k. tt;
  no_text = λ p. refl;
  children = λ p k. refl;
  no_sets = λ s x. refl;
}
