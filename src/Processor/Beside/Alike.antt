-- ===== src/Processor/Beside/Alike.antt =====
-- When two processors make calls that do the same.
use argus_go.Base.{some, Eff, Option, Error, Result, ◌>>=◌, pure, raise, attempt, ℕ, String, ok}
use argus_go.Domain.{Time, Duration, Alert, EventManager, GroupingRule}
use argus_go.Store.{ParentState, AlertState, PendingResolve}
use argus_go.Processor.{Service}
use argus_go.Processor.World.{World}
use argus_go.Processor.Beside.{Good}
use argus_go.Processor.Beside.Calls.{Any}

-- How the actions of one world may relate to those of memory mode; the predicate holds of what they
-- give.
abbrev pub Relation : Type 0 → Type 1
Relation V = (A : Type 0) → (A → Type 0) → Eff V A → ((ℕ → Time) → Eff World A) → Type 0

-- A relation that every way to build an action keeps.
pub record IsSimulation {V : Type 0} (Rel : Relation V) : Type 1 where
  pub returns : {A : Type 0} {Q : A → Type 0} (a : A) → Q a → Rel A Q (pure a) (λ clock. pure a)
  pub raises : {A : Type 0} {Q : A → Type 0} (e : Error) → Rel A Q (raise e) (λ clock. raise e)
  pub binds :
      {A B : Type 0} {Q : A → Type 0} {P : B → Type 0} (m : Eff V A) (n : (ℕ → Time) → Eff World A)
      (f : A → Eff V B) (g : (ℕ → Time) → A → Eff World B)
      → Rel A Q m n
      → ((a : A) → Q a → Rel B P (f a) (λ clock. g clock a))
      → Rel B P (m >>= f) (λ clock. n clock >>= g clock)
  pub attempts :
      {A : Type 0} {Q : A → Type 0} (m : Eff V A) (n : (ℕ → Time) → Eff World A)
      → Rel A Q m n
      → Rel (Result A) (Good Q) (attempt m) (λ clock. attempt (n clock))

-- Two processors of which each call of the first does what the second does.
pub record Alike {V : Type 0} (Rel : Relation V) (Recent : Time → Type 0)
    (RecentPending : Option PendingResolve → Type 0) (S : Service V)
    (T : (ℕ → Time) → Service World) : Type 0 where
  pub recent : (p : PendingResolve) → RecentPending (some p) → Recent p.requested_at
  pub now : Rel Time Recent S.now (λ clock. (T clock).now)
  pub new_id : Rel String Any S.new_id (λ clock. (T clock).new_id)
  pub get_parent :
      (em key value : String)
      → Rel
          (Option ParentState)
          Any
          (S.state_store.get_parent em key value)
          (λ clock. (T clock).state_store.get_parent em key value)
  pub set_parent :
      (em key value : String) (p : ParentState) (ttl : Duration)
      → Recent p.created_at
      → Rel Unit Any
          (S.state_store.set_parent em key value p ttl)
          (λ clock. (T clock).state_store.set_parent em key value p ttl)
  pub get_alert :
      (k : String)
      → Rel
          (Option AlertState)
          Any
          (S.state_store.get_alert k)
          (λ clock. (T clock).state_store.get_alert k)
  pub set_alert :
      (a : AlertState)
      → Rel Unit Any (S.state_store.set_alert a) (λ clock. (T clock).state_store.set_alert a)
  pub add_child :
      (p k : String)
      → Rel Unit Any (S.state_store.add_child p k) (λ clock. (T clock).state_store.add_child p k)
  pub get_pending_resolve :
      (k : String)
      → Rel
          (Option PendingResolve)
          RecentPending
          (S.state_store.get_pending_resolve k)
          (λ clock. (T clock).state_store.get_pending_resolve k)
  pub set_pending_resolve :
      (k : String) (p : PendingResolve)
      → Recent p.requested_at
      → Rel Unit Any
          (S.state_store.set_pending_resolve k p)
          (λ clock. (T clock).state_store.set_pending_resolve k p)
  pub delete_pending_resolve :
      (k : String)
      → Rel Unit Any
          (S.state_store.delete_pending_resolve k)
          (λ clock. (T clock).state_store.delete_pending_resolve k)
  pub create :
      (a : Alert) → Rel Unit Any (S.alert_repo.create a) (λ clock. (T clock).alert_repo.create a)
  pub update :
      (a : Alert) → Rel Unit Any (S.alert_repo.update a) (λ clock. (T clock).alert_repo.update a)
  pub get_by_dedup_key :
      (k : String)
      → Rel Alert Any
          (S.alert_repo.get_by_dedup_key k)
          (λ clock. (T clock).alert_repo.get_by_dedup_key k)
  pub count_active_children :
      (k : String)
      → Rel ℕ Any
          (S.alert_repo.count_active_children k)
          (λ clock. (T clock).alert_repo.count_active_children k)
  pub event_manager :
      (id : String)
      → Rel EventManager Any
          (S.event_manager_repo.get_by_id id)
          (λ clock. (T clock).event_manager_repo.get_by_id id)
  pub grouping_rule :
      (id : String)
      → Rel GroupingRule Any
          (S.grouping_rule_repo.get_by_id id)
          (λ clock. (T clock).grouping_rule_repo.get_by_id id)
  pub notify_new_parent :
      (a : Alert) (em : EventManager)
      → Rel Unit Any
          (λ x. (ok tt, S.notifier.notify_new_parent a em x))
          (λ clock u. (ok tt, (T clock).notifier.notify_new_parent a em u))
  pub notify_resolved :
      (a : Alert) (em : EventManager)
      → Rel Unit Any
          (λ x. (ok tt, S.notifier.notify_resolved a em x))
          (λ clock u. (ok tt, (T clock).notifier.notify_resolved a em u))
