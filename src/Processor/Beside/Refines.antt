-- ===== src/Processor/Beside/Refines.antt =====
-- Over any state store that keeps its contract, handling a message refines what the processor of
-- internal/processor/service.go does in memory mode.
use argus_go.Base.{ℕ, Option, List, ok, ap}
use argus_go.Base.Int.{pos}
use argus_go.Domain.{InternalEvent}
use argus_go.Store.{StateStore}
use argus_go.Store.Contract.{Content, InRange, Implements}
use argus_go.Memory.Alerts
use argus_go.Memory.EventManagers
use argus_go.Memory.EventManagers.{MemoryEventManagerRepository}
use argus_go.Memory.GroupingRules
use argus_go.Memory.GroupingRules.{MemoryGroupingRuleRepository}
use argus_go.Notification
use argus_go.Queue.{Message}
use argus_go.Processor.{handle_message}
use argus_go.Processor.Contract.{IsRange}
use argus_go.Processor.World.{World, Outside, service}
use argus_go.Processor.Beside.{service_beside, with_clock, Simulates}
use argus_go.Processor.Beside.Calls.{
  Any, now-Simulates, new_id-Simulates, query-Simulates, on_repo-Simulates, notify-Simulates,
}
use argus_go.Processor.Beside.States.{
  Recent, get_alert-Simulates, get_pending_resolve-Simulates, set_alert-Simulates,
  add_child-Simulates, set_pending_resolve-Simulates, delete_pending_resolve-Simulates,
  set_parent-Simulates, get_parent-Simulates,
}
use argus_go.Processor.Beside.Handlers.{handle_decoded-Same}
use argus_go.Processor.Beside.Alike.{Relation, IsSimulation, Alike}
use argus_go.Processor.Beside.Rules.{
  pure-Simulates, raise-Simulates, bind-Simulates, attempt-Simulates,
}

abbrev simulation : {W : Type 0} → (W → Content → Type 0) → Relation (W × World)
simulation Holds A Q m n = Simulates Holds Q m n

simulation-IsSimulation :
    {W : Type 0} (Holds : W → Content → Type 0) → IsSimulation (simulation Holds)
simulation-IsSimulation Holds = record {
  returns = pure-Simulates Holds;
  raises = raise-Simulates Holds;
  binds = bind-Simulates Holds;
  attempts = attempt-Simulates Holds;
}

module _ {W : Type 0} (s : StateStore W) (Holds : W → Content → Type 0) (o : Outside)
    (impl : Implements s Holds) (range : IsRange o.order_set)
    (dates : (n : ℕ) → InRange (o.clock n)) where
  service_beside-Alike :
      Alike
        (simulation Holds)
        InRange
        Recent
        (service_beside s o)
        (λ clock. service (with_clock o clock))
  service_beside-Alike = record {
    recent = λ p in_range. in_range;
    now = now-Simulates s Holds o dates;
    new_id = new_id-Simulates s Holds o;
    get_parent = get_parent-Simulates s Holds o impl range;
    set_parent = set_parent-Simulates s Holds o impl range;
    get_alert = get_alert-Simulates s Holds o impl range;
    set_alert = set_alert-Simulates s Holds o impl range;
    add_child = add_child-Simulates s Holds o impl range;
    get_pending_resolve = get_pending_resolve-Simulates s Holds o impl range;
    set_pending_resolve = set_pending_resolve-Simulates s Holds o impl range;
    delete_pending_resolve = delete_pending_resolve-Simulates s Holds o impl range;
    create = λ a. on_repo-Simulates s Holds o (λ r. (ok tt, Alerts.create a r));
    update = λ a. on_repo-Simulates s Holds o (Alerts.update a);
    get_by_dedup_key = λ k.
        query-Simulates s Holds o (λ w. Alerts.get_by_dedup_key k w.repo)
          (λ v u same. ap (Alerts.get_by_dedup_key k) same.repo);
    count_active_children = λ k.
        query-Simulates s Holds o (λ w. ok (Alerts.count_active_children k w.repo))
          (λ v u same. ap (λ r. ok (Alerts.count_active_children k r)) same.repo);
    event_manager = λ id.
        query-Simulates s Holds o (λ w. EventManagers.get_by_id id w.event_managers)
          (λ v u same. ap (EventManagers.get_by_id id) same.event_managers);
    grouping_rule = λ id.
        query-Simulates s Holds o (λ w. GroupingRules.get_by_id id w.grouping_rules)
          (λ v u same. ap (GroupingRules.get_by_id id) same.grouping_rules);
    notify_new_parent =
        λ a em. notify-Simulates s Holds o (Notification.notify_new_parent a em (pos 0));
    notify_resolved =
        λ a em. notify-Simulates s Holds o (Notification.notify_resolved a em (pos 0));
  }

  module _ (unmarshal : List ℕ → Option InternalEvent) where
    -- Over any state store that implements the contract, where all readings of the clock have a year of
    -- four digits: from worlds that agree, handling a message does what it does in memory mode with some
    -- readings of the clock: it returns the same result and leaves worlds that agree, which hold the same
    -- cached states, alerts, event managers, rules and notices.
    pub handle_message-Simulates :
        (msg : Message)
        → Simulates Holds Any
            (handle_message (service_beside s o) unmarshal msg)
            (λ clock. handle_message (service (with_clock o clock)) unmarshal msg)
    unfolding handle_message
    handle_message-Simulates msg =
        handle_decoded-Same (simulation Holds) InRange Recent (service_beside s o)
          (λ clock. service (with_clock o clock)) (simulation-IsSimulation Holds)
          service_beside-Alike (unmarshal msg.value)
