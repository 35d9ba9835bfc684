-- ===== src/Api/Server.antt =====
-- `NewServer`, `Start` and `Shutdown` of internal/api/server.go, and its error handler. Fiber and its
-- middleware are parameters. Api.World is what the routes do.
use argus_go.Base.{String, Bool, true, List, [], ◌∷◌, Eff}
use argus_go.Domain.{Duration}
use argus_go.Config.{ServerConfig, address}
use argus_go.Ingest.{IngestService}
use argus_go.Api.EventManagers.{EventManagerHandler}
use argus_go.Api.GroupingRules.{GroupingRuleHandler}
use argus_go.Api.Alerts.{AlertHandler}

-- `fiber.Config`, as far as `NewServer` sets it; the error handler is `custom_error_handler`.
pub record FiberConfig : Type 0 where
  pub disable_startup_message : Bool
  pub strict_routing : Bool
  pub case_sensitive : Bool
  pub read_timeout : Duration
  pub write_timeout : Duration
  pub idle_timeout : Duration

pub data Middleware : Type 0 where
  recovery : (enable_stack_trace : Bool) → Middleware
  request_id : Middleware
  request_logger : (format time_format : String) → Middleware

-- The handlers of the routes.
pub data Handler : Type 0 where
  health_check ingest_event : Handler
  create_event_manager list_event_managers get_event_manager update_event_manager : Handler
  delete_event_manager create_grouping_rule list_grouping_rules get_grouping_rule : Handler
  update_grouping_rule delete_grouping_rule list_alerts get_alert get_children : Handler

pub record Route : Type 0 where
  pub method : String
  pub path : String
  pub handler : Handler

-- What fiber does for an app `A`.
pub record Fiber (A W : Type 0) : Type 0 where
  pub new : FiberConfig → A
  pub add_middleware : Middleware → A → A
  pub add_route : Route → A → A
  pub listen : A → String → Eff W Unit
  pub shutdown_with_context : A → Eff W Unit

pub record ServerDeps (W : Type 0) : Type 0 where
  pub config : ServerConfig
  pub event_manager_handler : EventManagerHandler W
  pub grouping_rule_handler : GroupingRuleHandler W
  pub alert_handler : AlertHandler W
  pub ingest_handler : IngestService W

pub record Server (A W : Type 0) : Type 0 where
  pub app : A
  pub config : ServerConfig
  pub event_manager_handler : EventManagerHandler W
  pub grouping_rule_handler : GroupingRuleHandler W
  pub alert_handler : AlertHandler W
  pub ingest_handler : IngestService W

abbrev pub fiber_config : ServerConfig → FiberConfig
fiber_config cfg = record {
  disable_startup_message = true;
  strict_routing = true;
  case_sensitive = true;
  read_timeout = cfg.read_timeout;
  write_timeout = cfg.write_timeout;
  idle_timeout = cfg.idle_timeout;
}

-- In the order in which `registerMiddleware` adds them.
abbrev pub middleware : List Middleware
middleware =
    recovery true
    ∷ request_id
    ∷ request_logger "${time} | ${status} | ${latency} | ${method} | ${path} | ${error}\n"
        "2006-01-02 15:04:05"
    ∷ []

abbrev route : String → String → Handler → Route
route method path handler = record { method = method; path = path; handler = handler }

-- In the order in which `registerRoutes` adds them, with the prefix of the group.
abbrev pub routes : List Route
routes =
    route "GET" "/healthz" health_check
    ∷ route "POST" "/v1/events" ingest_event
    ∷ route "POST" "/v1/event-managers" create_event_manager
    ∷ route "GET" "/v1/event-managers" list_event_managers
    ∷ route "GET" "/v1/event-managers/:id" get_event_manager
    ∷ route "PUT" "/v1/event-managers/:id" update_event_manager
    ∷ route "DELETE" "/v1/event-managers/:id" delete_event_manager
    ∷ route "POST" "/v1/grouping-rules" create_grouping_rule
    ∷ route "GET" "/v1/grouping-rules" list_grouping_rules
    ∷ route "GET" "/v1/grouping-rules/:id" get_grouping_rule
    ∷ route "PUT" "/v1/grouping-rules/:id" update_grouping_rule
    ∷ route "DELETE" "/v1/grouping-rules/:id" delete_grouping_rule
    ∷ route "GET" "/v1/alerts" list_alerts
    ∷ route "GET" "/v1/alerts/:dedupKey" get_alert
    ∷ route "GET" "/v1/alerts/:dedupKey/children" get_children
    ∷ []

abbrev add_all : {A B : Type 0} → (B → A → A) → List B → A → A
add_all add [] app = app
add_all add (b ∷ l) app = add_all add l (add b app)

module _ {A W : Type 0} (fiber : Fiber A W) where
  abbrev pub register_middleware : A → A
  register_middleware app = add_all fiber.add_middleware middleware app

  abbrev pub register_routes : A → A
  register_routes app = add_all fiber.add_route routes app

  unfoldable pub new_server : ServerDeps W → Server A W
  new_server deps = record {
    app = register_routes (register_middleware (fiber.new (fiber_config deps.config)));
    config = deps.config;
    event_manager_handler = deps.event_manager_handler;
    grouping_rule_handler = deps.grouping_rule_handler;
    alert_handler = deps.alert_handler;
    ingest_handler = deps.ingest_handler;
  }

  unfoldable pub start : Server A W → Eff W Unit
  unfolding address
  start s = fiber.listen s.app (address s.config)

  unfoldable pub shutdown : Server A W → Eff W Unit
  shutdown s = fiber.shutdown_with_context s.app
