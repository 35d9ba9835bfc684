-- ===== src/Api/Spares.antt =====
-- What the handlers of internal/api leave alone.
use argus_go.Base.{
  ◌≤◌, String, Option, none, some, ◌≡◌, refl, arith, inl, inr, Error, Result, Option-cases,
}
use argus_go.Domain.{
  Event, validate_event, CreateEventManagerRequest, UpdateEventManagerRequest,
  CreateGroupingRuleRequest, UpdateGroupingRuleRequest,
}
use argus_go.Processor.World.{World, Outside}
use argus_go.Ingest.{Codec}
use argus_go.Ingest.World.{System, ingest_service}
use argus_go.Api.World.{
  Request, health, post_event, post_event_manager, list_event_managers, get_event_manager,
  put_event_manager, delete_event_manager, post_grouping_rule, list_grouping_rules,
  get_grouping_rule, put_grouping_rule, delete_grouping_rule, list_alerts, get_alert, get_children,
  serve, event_manager_handler, grouping_rule_handler, alert_handler,
}
use argus_go.Memory.EventManagers as Store
use argus_go.Memory.GroupingRules as Rules
use argus_go.Api.EventManagers
use argus_go.Api.GroupingRules
use argus_go.Api.Alerts
use argus_go.Api.Queries.{AlertQuery}
use argus_go.Ingest.Publishing.{
  Ingested, published, no_manager, no_rule, not_encoded, not_accepted, ingest_event-Ingested,
}
use argus_go.Api.Events.{handle_ingest_event}

-- What the API may do to the world: it uses up UUIDs and readings of the clock, and writes event
-- managers and rules, but leaves alerts and their cached states alone.
pub record Spares (w u : World) : Type 0 where
  pub states : u.states ≡ w.states
  pub repo : u.repo ≡ w.repo
  pub used : w.used ≤ u.used

Spares-refl : (w : World) → Spares w w
Spares-refl w = record { states = refl; repo = refl; used = ground arith }

module _ (o : Outside) (text : Error → String) where
  create_manager-Spares :
      (body : Option CreateEventManagerRequest) (w : World)
      → Spares w (EventManagers.create (event_manager_handler o text) body w).1
  unfolding EventManagers.create Store.create
  create_manager-Spares none w = Spares-refl w
  create_manager-Spares (some req) w = ground arith

  update_manager-Spares :
      (id : String) (body : Option UpdateEventManagerRequest) (w : World)
      → Spares w (EventManagers.update (event_manager_handler o text) id body w).1
  unfolding EventManagers.update Store.update Store.get_by_id
  update_manager-Spares id none w = ground arith
  update_manager-Spares id (some req) w = ground arith

  delete_manager-Spares :
      (id : String) (w : World)
      → Spares w (EventManagers.delete (event_manager_handler o text) id w).1
  unfolding EventManagers.delete Store.delete
  delete_manager-Spares id w = ground arith

  get_manager-Spares :
      (id : String) (w : World)
      → Spares w (EventManagers.get_by_id (event_manager_handler o text) id w).1
  unfolding EventManagers.get_by_id
  get_manager-Spares id w = ground arith

  create_rule-Spares :
      (body : Option CreateGroupingRuleRequest) (w : World)
      → Spares w (GroupingRules.create (grouping_rule_handler o text) body w).1
  unfolding GroupingRules.create Rules.create
  create_rule-Spares none w = Spares-refl w
  create_rule-Spares (some req) w = ground arith

  update_rule-Spares :
      (id : String) (body : Option UpdateGroupingRuleRequest) (w : World)
      → Spares w (GroupingRules.update (grouping_rule_handler o text) id body w).1
  unfolding GroupingRules.update Rules.update Rules.get_by_id
  update_rule-Spares id none w = ground arith
  update_rule-Spares id (some req) w = ground arith

  delete_rule-Spares :
      (id : String) (w : World)
      → Spares w (GroupingRules.delete (grouping_rule_handler o text) id w).1
  unfolding GroupingRules.delete Rules.delete
  delete_rule-Spares id w = ground arith

  get_rule-Spares :
      (id : String) (w : World)
      → Spares w (GroupingRules.get_by_id (grouping_rule_handler o text) id w).1
  unfolding GroupingRules.get_by_id
  get_rule-Spares id w = ground arith

  list_alerts-Spares :
      (q : AlertQuery) (w : World) → Spares w (Alerts.list (alert_handler o text) q w).1
  unfolding Alerts.list
  list_alerts-Spares q w = Spares-refl w

  get_alert-Spares :
      (k : String) (w : World) → Spares w (Alerts.get_by_dedup_key (alert_handler o text) k w).1
  unfolding Alerts.get_by_dedup_key
  get_alert-Spares k w = ground arith

  get_children-Spares :
      (k : String) (w : World) → Spares w (Alerts.get_children (alert_handler o text) k w).1
  unfolding Alerts.get_children
  get_children-Spares k w = ground arith

  Ingested-Spares :
      (c : Codec) (event : Event) (s : System) {x : Result (Unit {0}) × System}
      → Ingested o c event s x
      → Spares s.world x.1.world
  Ingested-Spares c event s
        (published rule x payload routed enriches encodes not_closed fits alive) =
      ground arith
  Ingested-Spares c event s (no_manager missing) = Spares-refl s.world
  Ingested-Spares c event s (no_rule em known missing) = Spares-refl s.world
  Ingested-Spares c event s (not_encoded rule x f routed enriches fails) = ground arith
  Ingested-Spares c event s (not_accepted rule routed full) = ground arith

  post_event-Spares :
      (c : Codec) (body : Option Event) (s : System)
      → Spares s.world (handle_ingest_event c (ingest_service o) text body s).1.world
  unfolding handle_ingest_event
  post_event-Spares c none s = Spares-refl s.world
  post_event-Spares c (some event) s = elim (Option-cases (validate_event event)) [
    | inr (e, invalid) ↦ rw invalid (Spares-refl s.world)
    | inl valid ↦ rw valid (Ingested-Spares c event s (ingest_event-Ingested o c event s))
  ]

  -- A request leaves the alerts and their cached states alone, and takes UUIDs only from those that
  -- are not used yet.
  pub serve-Spares :
      (c : Codec) (r : Request) (s : System) → Spares s.world (serve o text c r s).1.world
  unfolding serve EventManagers.list GroupingRules.list
  serve-Spares c health s = Spares-refl s.world
  serve-Spares c (post_event body) s = post_event-Spares c body s
  serve-Spares c (post_event_manager body) s = create_manager-Spares body s.world
  serve-Spares c list_event_managers s = Spares-refl s.world
  serve-Spares c (get_event_manager id) s = get_manager-Spares id s.world
  serve-Spares c (put_event_manager id body) s = update_manager-Spares id body s.world
  serve-Spares c (delete_event_manager id) s = delete_manager-Spares id s.world
  serve-Spares c (post_grouping_rule body) s = create_rule-Spares body s.world
  serve-Spares c list_grouping_rules s = Spares-refl s.world
  serve-Spares c (get_grouping_rule id) s = get_rule-Spares id s.world
  serve-Spares c (put_grouping_rule id body) s = update_rule-Spares id body s.world
  serve-Spares c (delete_grouping_rule id) s = delete_rule-Spares id s.world
  serve-Spares c (list_alerts q) s = list_alerts-Spares q s.world
  serve-Spares c (get_alert k) s = get_alert-Spares k s.world
  serve-Spares c (get_children k) s = get_children-Spares k s.world
