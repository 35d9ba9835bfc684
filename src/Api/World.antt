-- ===== src/Api/World.antt =====
-- The HTTP API in memory mode: `registerRoutes` and `healthCheck` of internal/api/server.go as one
-- function of the request, with the handlers that cmd/argus/main.go makes.
use argus_go.Base.{String, Option, Error, List}
use argus_go.Domain.{
  Event, Alert, EventManager, GroupingRule, CreateEventManagerRequest, UpdateEventManagerRequest,
  CreateGroupingRuleRequest, UpdateGroupingRuleRequest,
}
use argus_go.Processor.World.{
  World, Outside, now, new_id, memory_event_manager_repository, memory_grouping_rule_repository,
  memory_alert_repository,
}
use argus_go.Ingest.{Codec}
use argus_go.Ingest.World.{System, ingest_service}
use argus_go.Api.Responses.{Response, success}
use argus_go.Api.Events.{EventReceipt, handle_ingest_event}
use argus_go.Api.EventManagers
use argus_go.Api.EventManagers.{EventManagerHandler}
use argus_go.Api.GroupingRules
use argus_go.Api.GroupingRules.{GroupingRuleHandler}
use argus_go.Api.Queries.{AlertQuery}
use argus_go.Api.Alerts
use argus_go.Api.Alerts.{AlertHandler}

-- A request to a route, with what fiber parses of it.
pub data Request : Type 0 where
  health : Request
  post_event : Option Event → Request
  post_event_manager : Option CreateEventManagerRequest → Request
  list_event_managers : Request
  get_event_manager : (id : String) → Request
  put_event_manager : (id : String) → Option UpdateEventManagerRequest → Request
  delete_event_manager : (id : String) → Request
  post_grouping_rule : Option CreateGroupingRuleRequest → Request
  list_grouping_rules : Request
  get_grouping_rule : (id : String) → Request
  put_grouping_rule : (id : String) → Option UpdateGroupingRuleRequest → Request
  delete_grouping_rule : (id : String) → Request
  list_alerts : AlertQuery → Request
  get_alert : (dedup_key : String) → Request
  get_children : (dedup_key : String) → Request

pub data Reply : Type 0 where
  status : Response String → Reply
  receipt : Response EventReceipt → Reply
  event_manager : Response EventManager → Reply
  event_managers : Response (List EventManager) → Reply
  grouping_rule : Response GroupingRule → Reply
  grouping_rules : Response (List GroupingRule) → Reply
  alert : Response Alert → Reply
  alerts : Response (List Alert) → Reply
  deleted : Response (Unit {0}) → Reply

-- A handler that does not touch the queue.
abbrev on_world :
    {A : Type 0} → System → (Response A → Reply) → (World → Response A × World) → Reply × System
on_world s reply f = let (r, w) = f s.world in (reply r, record s { world = w })

module _ (o : Outside) (text : Error → String) where
  abbrev pub event_manager_handler : EventManagerHandler World
  event_manager_handler = record {
    repo = memory_event_manager_repository o;
    now = now o;
    new_id = new_id o;
    text = text;
  }

  abbrev pub grouping_rule_handler : GroupingRuleHandler World
  grouping_rule_handler = record {
    repo = memory_grouping_rule_repository o;
    now = now o;
    new_id = new_id o;
    text = text;
  }

  abbrev pub alert_handler : AlertHandler World
  alert_handler = record { repo = memory_alert_repository o; text = text }

  unfoldable pub serve : Codec → Request → System → Reply × System
  serve c health s = (Reply.status (success "healthy"), s)
  serve c (post_event body) s =
      let (r, s') = handle_ingest_event c (ingest_service o) text body s in (receipt r, s')
  serve c (post_event_manager body) s =
      on_world s event_manager (EventManagers.create event_manager_handler body)
  serve c list_event_managers s =
      on_world s event_managers (EventManagers.list event_manager_handler)
  serve c (get_event_manager id) s =
      on_world s event_manager (EventManagers.get_by_id event_manager_handler id)
  serve c (put_event_manager id body) s =
      on_world s event_manager (EventManagers.update event_manager_handler id body)
  serve c (delete_event_manager id) s =
      on_world s deleted (EventManagers.delete event_manager_handler id)
  serve c (post_grouping_rule body) s =
      on_world s grouping_rule (GroupingRules.create grouping_rule_handler body)
  serve c list_grouping_rules s =
      on_world s grouping_rules (GroupingRules.list grouping_rule_handler)
  serve c (get_grouping_rule id) s =
      on_world s grouping_rule (GroupingRules.get_by_id grouping_rule_handler id)
  serve c (put_grouping_rule id body) s =
      on_world s grouping_rule (GroupingRules.update grouping_rule_handler id body)
  serve c (delete_grouping_rule id) s =
      on_world s deleted (GroupingRules.delete grouping_rule_handler id)
  serve c (list_alerts q) s = on_world s alerts (Alerts.list alert_handler q)
  serve c (get_alert k) s = on_world s alert (Alerts.get_by_dedup_key alert_handler k)
  serve c (get_children k) s = on_world s alerts (Alerts.get_children alert_handler k)
