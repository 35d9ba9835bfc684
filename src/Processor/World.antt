-- ===== src/Processor/World.antt =====
-- The processor over the in-memory stores, as cmd/argus/main.go wires it in memory mode: the
-- world holds the four stores, the notifier's log, and the readings that the clock and the source
-- of UUIDs will give. `used` and `ticks` count the readings taken.
use argus_go.Base.{ℕ, suc, String, Option, none, some, List, [], Result, ok, err, Eff, ◌>>=◌}
use argus_go.Base.Effect.{panic}
use argus_go.Base.Map.{Map}
use argus_go.Domain.{Time, Alert, EventManager, GroupingRule}
use argus_go.Store.{StateStore, AlertRepository, EventManagerRepository, GroupingRuleRepository}
use argus_go.Memory.States
use argus_go.Memory.States.{MemoryStateStore}
use argus_go.Memory.Alerts
use argus_go.Memory.Alerts.{MemoryAlertRepository}
use argus_go.Memory.EventManagers
use argus_go.Memory.EventManagers.{MemoryEventManagerRepository}
use argus_go.Memory.GroupingRules
use argus_go.Memory.GroupingRules.{MemoryGroupingRuleRepository}
use argus_go.Notification
use argus_go.Notification.{Notifier, Notice}
use argus_go.Processor.{Service}

pub record World : Type 0 where
  pub states : MemoryStateStore
  pub repo : MemoryAlertRepository
  pub event_managers : MemoryEventManagerRepository
  pub grouping_rules : MemoryGroupingRuleRepository
  pub log : List Notice
  pub ticks : ℕ
  pub used : ℕ

-- What the world outside decides: the clock's readings, the UUIDs, and the order of `range`.
pub record Outside : Type 0 where
  pub clock : ℕ → Time
  pub uuid : ℕ → String
  pub order_set : Map (Unit {0}) → List String
  pub order_alerts : Map Alert → List Alert
  pub order_event_managers : Map EventManager → List EventManager
  pub order_grouping_rules : Map GroupingRule → List GroupingRule

abbrev pub init : World
init = record {
  states = States.new_state_store;
  repo = Alerts.new_alert_repository;
  event_managers = EventManagers.new_event_manager_repository;
  grouping_rules = GroupingRules.new_grouping_rule_repository;
  log = [];
  ticks = 0;
  used = 0;
}

module _ (o : Outside) where
  abbrev pub now : Eff World Time
  now w = (ok (o.clock w.ticks), record w { ticks = suc w.ticks })

  abbrev pub new_id : Eff World String
  new_id w = (ok (o.uuid w.used), record w { used = suc w.used })

-- Methods of the state store and of the repositories, on the world.
module _ {A : Type 0} where
  abbrev pub ask : (World → A) → Eff World A
  ask f w = (ok (f w), w)

  abbrev pub query : (World → Result A) → Eff World A
  query f w = (f w, w)

abbrev pub on_states : (MemoryStateStore → MemoryStateStore) → Eff World Unit
on_states f w = (ok tt, record w { states = f w.states })

abbrev pub on_repo :
    (MemoryAlertRepository → Result (Unit {0}) × MemoryAlertRepository) → Eff World Unit
on_repo f w = ((f w.repo).0, record w { repo = (f w.repo).1 })

abbrev on_event_managers :
    (MemoryEventManagerRepository → Result (Unit {0}) × MemoryEventManagerRepository)
    → Eff World Unit
on_event_managers f w =
    ((f w.event_managers).0, record w { event_managers = (f w.event_managers).1 })

abbrev on_grouping_rules :
    (MemoryGroupingRuleRepository → Result (Unit {0}) × MemoryGroupingRuleRepository)
    → Eff World Unit
on_grouping_rules f w =
    ((f w.grouping_rules).0, record w { grouping_rules = (f w.grouping_rules).1 })

-- `page` of the repository, whose slice may panic.
abbrev or_panic : Option (List Alert) → Result (List Alert)
or_panic none = err (panic "slice bounds out of range")
or_panic (some l) = ok l

module _ (o : Outside) where
  abbrev pub memory_state_store : StateStore World
  memory_state_store = record {
    get_parent = λ em key value. do
      now ← now o
      ask (λ w. States.get_parent em key value now w.states);
    set_parent = λ em key value state ttl. do
      now ← now o
      on_states (States.set_parent em key value state ttl now);
    delete_parent = λ em key value. on_states (States.delete_parent em key value);
    get_alert = λ k. ask (λ w. States.get_alert k w.states);
    set_alert = λ state. on_states (States.set_alert state);
    delete_alert = λ k. on_states (States.delete_alert k);
    add_child = λ parent child. on_states (States.add_child parent child);
    remove_child = λ parent child. on_states (States.remove_child parent child);
    get_children = λ parent. ask (λ w. States.get_children o.order_set parent w.states);
    get_child_count = λ parent. ask (λ w. States.get_child_count parent w.states);
    set_pending_resolve = λ parent pending. on_states (States.set_pending_resolve parent pending);
    get_pending_resolve = λ parent. ask (λ w. States.get_pending_resolve parent w.states);
    delete_pending_resolve = λ parent. on_states (States.delete_pending_resolve parent);
  }

  abbrev pub memory_alert_repository : AlertRepository World
  memory_alert_repository = record {
    create = λ a. on_repo (λ r. (ok tt, Alerts.create a r));
    update = λ a. on_repo (Alerts.update a);
    get_by_id = λ id. query (λ w. Alerts.get_by_id id w.repo);
    get_by_dedup_key = λ k. query (λ w. Alerts.get_by_dedup_key k w.repo);
    list = λ f. query (λ w. or_panic (Alerts.list o.order_alerts f w.repo));
    get_children_by_parent =
        λ parent. ask (λ w. Alerts.get_children_by_parent o.order_alerts parent w.repo);
    count_active_children = λ parent. ask (λ w. Alerts.count_active_children parent w.repo);
  }

  abbrev pub memory_event_manager_repository : EventManagerRepository World
  memory_event_manager_repository = record {
    create = λ em. on_event_managers (EventManagers.create em);
    update = λ em. on_event_managers (EventManagers.update em);
    delete = λ id. on_event_managers (EventManagers.delete id);
    get_by_id = λ id. query (λ w. EventManagers.get_by_id id w.event_managers);
    list = ask (λ w. EventManagers.list o.order_event_managers w.event_managers);
  }

  abbrev pub memory_grouping_rule_repository : GroupingRuleRepository World
  memory_grouping_rule_repository = record {
    create = λ rule. on_grouping_rules (GroupingRules.create rule);
    update = λ rule. on_grouping_rules (GroupingRules.update rule);
    delete = λ id. on_grouping_rules (GroupingRules.delete id);
    get_by_id = λ id. query (λ w. GroupingRules.get_by_id id w.grouping_rules);
    list = ask (λ w. GroupingRules.list o.order_grouping_rules w.grouping_rules);
  }

  -- The stub reads the clock in `buildPayload`.
  abbrev pub stub_notifier : Notifier World
  stub_notifier = record {
    notify_new_parent = λ alert em w. record w {
      log = Notification.notify_new_parent alert em (o.clock w.ticks) w.log;
      ticks = suc w.ticks;
    };
    notify_resolved = λ alert em w. record w {
      log = Notification.notify_resolved alert em (o.clock w.ticks) w.log;
      ticks = suc w.ticks;
    };
  }

  abbrev pub service : Service World
  service = record {
    state_store = memory_state_store;
    alert_repo = memory_alert_repository;
    event_manager_repo = memory_event_manager_repository;
    grouping_rule_repo = memory_grouping_rule_repository;
    notifier = stub_notifier;
    now = now o;
    new_id = new_id o;
  }
