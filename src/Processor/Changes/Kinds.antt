-- ===== src/Processor/Changes/Kinds.antt =====
-- The ways in which one message can change the world of the processor.
use argus_go.Base.{suc, false, ◌≢◌, ◌⊎◌, err, Error, ◌<◌, String, true, Option, none, some, ◌≡◌, ok}
use argus_go.Base.Map.{get}
use argus_go.Domain.{Alert, InternalEvent, resolve, EventManager, GroupingRule}
use argus_go.Store.{ParentState, PendingResolve}
use argus_go.Memory.States.{get_parent}
use argus_go.Memory.Alerts.{count_active_children}
use argus_go.Memory.EventManagers
use argus_go.Memory.GroupingRules
use argus_go.Processor.World.{World, Outside}
use argus_go.Processor.Invariant.{is_requested}
use argus_go.Processor.Runs.{
  write, reactivated, parent_created, child_created, requested, parent_resolved,
}
use argus_go.Processor.Handled.{recounted}

-- The event's alert, as the repository holds it.
abbrev pub Stored : World → String → Alert → Type 0
Stored w k b = get w.repo.by_dedup_key k ≡ some b

abbrev pub ticked : World → World
ticked w = record w { ticks = suc w.ticks }

-- The window that the state store has open for the event under a rule.
abbrev pub window : Outside → InternalEvent → GroupingRule → World → Option ParentState
window o event rule w =
    get_parent event.event_manager_id rule.grouping_key event.grouping_value (o.clock w.ticks)
      w.states

-- The event manager and the rule of an event.
pub record Configured (event : InternalEvent) (em : EventManager) (rule : GroupingRule) (w : World)
    : Type 0 where
  pub its_manager : EventManagers.get_by_id event.event_manager_id w.event_managers ≡ ok em
  pub its_rule : GroupingRules.get_by_id em.grouping_rule_id w.grouping_rules ≡ ok rule

module _ (o : Outside) (event : InternalEvent) (w : World) where
  -- The child's own writes, before its parent is looked at.
  abbrev pub child_closed : Alert → World
  child_closed b = write o (resolve b (o.clock w.ticks)) w

  -- Why an event leaves the world as it is.
  pub data Ignored : Type 0 where
    unknown_action : event.action ≢ "trigger" → event.action ≢ "resolve" → Ignored
    no_manager :
        (e : Error)
        → event.action ≡ "trigger"
        → get w.repo.by_dedup_key event.dedup_key ≡ none
        → EventManagers.get_by_id event.event_manager_id w.event_managers ≡ err e
        → Ignored
    no_rule :
        (em : EventManager) (e : Error)
        → event.action ≡ "trigger"
        → get w.repo.by_dedup_key event.dedup_key ≡ none
        → EventManagers.get_by_id event.event_manager_id w.event_managers ≡ ok em
        → GroupingRules.get_by_id em.grouping_rule_id w.grouping_rules ≡ err e
        → Ignored
    repeated :
        (b : Alert)
        → event.action ≡ "trigger"
        → Stored w event.dedup_key b
        → b.status ≢ "resolved"
        → Ignored
    no_alert : event.action ≡ "resolve" → get w.repo.by_dedup_key event.dedup_key ≡ none → Ignored
    resolved_before :
        (b : Alert)
        → event.action ≡ "resolve"
        → Stored w event.dedup_key b
        → b.status ≡ "resolved"
        → Ignored

  pub data Change : World → Type 0 where
    idle : Ignored → Change w
    opened :
        (em : EventManager) (rule : GroupingRule)
        → event.action ≡ "trigger"
        → Configured event em rule w
        → get w.repo.by_dedup_key event.dedup_key ≡ none
        → window o event rule w ≡ none
        → Change (parent_created o event rule em (ticked w))
    joined :
        (em : EventManager) (rule : GroupingRule) (p : ParentState) (b : Alert)
        → event.action ≡ "trigger"
        → Configured event em rule w
        → get w.repo.by_dedup_key event.dedup_key ≡ none
        → window o event rule w ≡ some p
        → Stored w p.dedup_key b
        → b.type ≡ "parent"
        → Change (child_created o event p b (ticked w))
    revived :
        (b : Alert)
        → event.action ≡ "trigger"
        → Stored w event.dedup_key b
        → b.status ≡ "resolved"
        → Change (write o (reactivated o b w) w)
    asked :
        (b : Alert)
        → event.action ≡ "resolve"
        → Stored w event.dedup_key b
        → b.type ≡ "parent"
        → b.status ≡ "active"
        → 0 < count_active_children b.dedup_key w.repo
        → Change (requested o b w)
    finished :
        (b : Alert)
        → event.action ≡ "resolve"
        → Stored w event.dedup_key b
        → b.type ≡ "parent"
        → b.status ≡ "active"
        → count_active_children b.dedup_key w.repo ≡ 0
        → Change (parent_resolved o b w)
    closed :
        (b : Alert)
        → event.action ≡ "resolve"
        → Stored w event.dedup_key b
        → b.type ≡ "child"
        → b.status ≡ "active"
        → (b.parent_dedup_key ≡ "")
          ⊎ (is_requested (get w.repo.by_dedup_key b.parent_dedup_key) ≡ false)
        → Change (child_closed b)
    counted_down :
        (b : Alert) (q : PendingResolve)
        → event.action ≡ "resolve"
        → Stored w event.dedup_key b
        → b.type ≡ "child"
        → b.status ≡ "active"
        → get w.states.pending_resolves b.parent_dedup_key ≡ some q
        → 0 < count_active_children b.parent_dedup_key (child_closed b).repo
        → Change (recounted o b.parent_dedup_key q (child_closed b))
    completed :
        (b p : Alert)
        → event.action ≡ "resolve"
        → Stored w event.dedup_key b
        → b.type ≡ "child"
        → b.status ≡ "active"
        → Stored (child_closed b) b.parent_dedup_key p
        → p.type ≡ "parent"
        → p.status ≡ "active"
        → p.resolve_requested ≡ true
        → count_active_children b.parent_dedup_key (child_closed b).repo ≡ 0
        → Change (parent_resolved o p (child_closed b))
