-- ===== src/Memory/States.antt =====
-- internal/store/memory/state_store.go
pub mod Windows
use Prim.Native.String as Text
use argus_go.Base.{ℕ, String, Option, none, some, List, if◌then◌else◌}
use argus_go.Base.Int.{◌+ℤ◌, lt_ℤ}
use argus_go.Base.Map
use argus_go.Base.Map.{Map, or_empty}
use argus_go.Domain.{Time, Duration}
use argus_go.Store.{ParentState, AlertState, PendingResolve}

-- `parentEntry`
pub record ParentEntry : Type 0 where
  pub state : ParentState
  pub expires_at : Time

pub record MemoryStateStore : Type 0 where
  pub parents : Map ParentEntry
  pub alerts : Map AlertState
  pub children : Map (Map (Unit {0}))
  pub pending_resolves : Map PendingResolve

-- `NewStateStore`, and what `Clear` leaves.
abbrev pub new_state_store : MemoryStateStore
new_state_store = record {
  parents = Map.empty;
  alerts = Map.empty;
  children = Map.empty;
  pending_resolves = Map.empty;
}

-- `fmt.Sprintf("%s:%s:%s", …)`
unfoldable pub parent_key : String → String → String → String
parent_key em key value = Text.◌++◌ em (Text.◌++◌ ":" (Text.◌++◌ key (Text.◌++◌ ":" value)))

-- The lazy expiry of `GetParent`: `time.Now().After(entry.expiresAt)`.
abbrev pub unexpired : Time → Option ParentEntry → Option ParentState
unexpired now none = none
unexpired now (some entry) = if lt_ℤ entry.expires_at now then none else some entry.state

abbrev pub get_parent : String → String → String → Time → MemoryStateStore → Option ParentState
get_parent em key value now s = unexpired now (Map.get s.parents (parent_key em key value))

abbrev pub set_parent :
    String → String → String → ParentState → Duration → Time → MemoryStateStore → MemoryStateStore
set_parent em key value state ttl now s = record s {
  parents =
      Map.put s.parents (parent_key em key value)
        (record { state = state; expires_at = now +ℤ ttl });
}

abbrev pub delete_parent : String → String → String → MemoryStateStore → MemoryStateStore
delete_parent em key value s = record s { parents = Map.delete s.parents (parent_key em key value) }

abbrev pub get_alert : String → MemoryStateStore → Option AlertState
get_alert k s = Map.get s.alerts k

abbrev pub set_alert : AlertState → MemoryStateStore → MemoryStateStore
set_alert state s = record s { alerts = Map.put s.alerts state.dedup_key state }

abbrev pub delete_alert : String → MemoryStateStore → MemoryStateStore
delete_alert k s = record s { alerts = Map.delete s.alerts k }

abbrev pub add_child : String → String → MemoryStateStore → MemoryStateStore
add_child parent child s = record s {
  children = Map.put s.children parent (Map.put (or_empty (Map.get s.children parent)) child tt);
}

-- `delete` on the inner map, where there is one.
abbrev remove_from : String → String → Option (Map (Unit {0})) → MemoryStateStore → MemoryStateStore
remove_from parent child none s = s
remove_from parent child (some set) s = record s {
  children = Map.put s.children parent (Map.delete set child);
}

abbrev pub remove_child : String → String → MemoryStateStore → MemoryStateStore
remove_child parent child s = remove_from parent child (Map.get s.children parent) s

-- `order` is the order in which Go ranges over the set.
abbrev pub get_children : (Map (Unit {0}) → List String) → String → MemoryStateStore → List String
get_children order parent s = order (or_empty (Map.get s.children parent))

abbrev pub get_child_count : String → MemoryStateStore → ℕ
get_child_count parent s = Map.size (or_empty (Map.get s.children parent))

abbrev pub set_pending_resolve : String → PendingResolve → MemoryStateStore → MemoryStateStore
set_pending_resolve parent pending s = record s {
  pending_resolves = Map.put s.pending_resolves parent pending;
}

abbrev pub get_pending_resolve : String → MemoryStateStore → Option PendingResolve
get_pending_resolve parent s = Map.get s.pending_resolves parent

abbrev pub delete_pending_resolve : String → MemoryStateStore → MemoryStateStore
delete_pending_resolve parent s = record s {
  pending_resolves = Map.delete s.pending_resolves parent;
}
