-- ===== src/Store.antt =====
-- internal/store/state_store.go and repository.go: the cached states and the interfaces of the
-- stores. A store is seen through the world `W` that holds it. A nil pointer is `none`.
pub mod Contract
pub mod Lifted
use argus_go.Base.{ℕ, String, Bool, Option, List, Eff}
use argus_go.Domain.{Time, Duration, Alert, AlertFilter, EventManager, GroupingRule}

pub record ParentState : Type 0 where
  pub dedup_key : String
  pub created_at : Time
  pub child_count : ℕ

pub record AlertState : Type 0 where
  pub dedup_key : String
  pub event_manager_id : String
  pub type : String
  pub status : String
  pub parent_dedup_key : String
  pub resolve_requested : Bool

pub record PendingResolve : Type 0 where
  pub requested_at : Time
  pub remaining_children : ℕ

pub record StateStore (W : Type 0) : Type 0 where
  pub get_parent : String → String → String → Eff W (Option ParentState)
  pub set_parent : String → String → String → ParentState → Duration → Eff W Unit
  pub delete_parent : String → String → String → Eff W Unit
  pub get_alert : String → Eff W (Option AlertState)
  pub set_alert : AlertState → Eff W Unit
  pub delete_alert : String → Eff W Unit
  pub add_child : String → String → Eff W Unit
  pub remove_child : String → String → Eff W Unit
  pub get_children : String → Eff W (List String)
  pub get_child_count : String → Eff W ℕ
  pub set_pending_resolve : String → PendingResolve → Eff W Unit
  pub get_pending_resolve : String → Eff W (Option PendingResolve)
  pub delete_pending_resolve : String → Eff W Unit

pub record AlertRepository (W : Type 0) : Type 0 where
  pub create : Alert → Eff W Unit
  pub update : Alert → Eff W Unit
  pub get_by_id : String → Eff W Alert
  pub get_by_dedup_key : String → Eff W Alert
  pub list : AlertFilter → Eff W (List Alert)
  pub get_children_by_parent : String → Eff W (List Alert)
  pub count_active_children : String → Eff W ℕ

pub record EventManagerRepository (W : Type 0) : Type 0 where
  pub create : EventManager → Eff W Unit
  pub update : EventManager → Eff W Unit
  pub delete : String → Eff W Unit
  pub get_by_id : String → Eff W EventManager
  pub list : Eff W (List EventManager)

pub record GroupingRuleRepository (W : Type 0) : Type 0 where
  pub create : GroupingRule → Eff W Unit
  pub update : GroupingRule → Eff W Unit
  pub delete : String → Eff W Unit
  pub get_by_id : String → Eff W GroupingRule
  pub list : Eff W (List GroupingRule)
