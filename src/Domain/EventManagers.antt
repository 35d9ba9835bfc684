-- ===== src/Domain/EventManagers.antt =====
-- internal/domain/event_manager.go
use argus_go.Base.{String, Option, none, some, Error, ◌==◌, if◌then◌else◌}
use argus_go.Base.Effect.{empty_name, empty_grouping_rule_id}
use argus_go.Domain.Events.{Time}

pub record NotificationConfig : Type 0 where
  pub webhook_url : String

pub record EventManager : Type 0 where
  pub id : String
  pub name : String
  pub description : String
  pub grouping_rule_id : String
  pub notification_config : NotificationConfig
  pub created_at : Time
  pub updated_at : Time

-- `EventManager.Validate`
unfoldable pub validate_event_manager : EventManager → Option Error
validate_event_manager em =
    if em.name == ""
    then some empty_name
    else if em.grouping_rule_id == ""
    then some empty_grouping_rule_id
    else none

pub record CreateEventManagerRequest : Type 0 where
  pub name : String
  pub description : String
  pub grouping_rule_id : String
  pub notification_config : NotificationConfig

-- `CreateEventManagerRequest.Validate`
unfoldable pub validate_create_event_manager : CreateEventManagerRequest → Option Error
validate_create_event_manager r =
    if r.name == ""
    then some empty_name
    else if r.grouping_rule_id == ""
    then some empty_grouping_rule_id
    else none

-- `ToEventManager`
unfoldable pub to_event_manager : CreateEventManagerRequest → String → Time → EventManager
to_event_manager r id now = record {
  id = id;
  name = r.name;
  description = r.description;
  grouping_rule_id = r.grouping_rule_id;
  notification_config = r.notification_config;
  created_at = now;
  updated_at = now;
}

pub record UpdateEventManagerRequest : Type 0 where
  pub name : String
  pub description : String
  pub grouping_rule_id : String
  pub notification_config : NotificationConfig

-- `UpdateEventManagerRequest.Validate`
unfoldable pub validate_update_event_manager : UpdateEventManagerRequest → Option Error
validate_update_event_manager r =
    if r.name == ""
    then some empty_name
    else if r.grouping_rule_id == ""
    then some empty_grouping_rule_id
    else none

-- `UpdateEventManagerRequest.ApplyTo`
unfoldable pub apply_to_event_manager :
    UpdateEventManagerRequest → EventManager → Time → EventManager
apply_to_event_manager r em now = record em {
  name = r.name;
  description = r.description;
  grouping_rule_id = r.grouping_rule_id;
  notification_config = r.notification_config;
  updated_at = now;
}
