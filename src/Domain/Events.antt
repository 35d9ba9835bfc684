-- ===== src/Domain/Events.antt =====
-- internal/domain/event.go
use argus_go.Base.{String, Bool, not, ◌||◌, Option, none, some, Error, ◌==◌, if◌then◌else◌}
use argus_go.Base.Effect.{
  empty_event_manager_id, empty_summary, invalid_severity, invalid_action, empty_dedup_key,
}
use argus_go.Base.Int.{ℤ}

abbrev pub Time : Type 0
Time = ℤ

abbrev pub Severity : Type 0
Severity = String

abbrev pub Action : Type 0
Action = String

abbrev pub action_trigger : Action
action_trigger = "trigger"

abbrev pub action_resolve : Action
action_resolve = "resolve"

abbrev pub severity_high : Severity
severity_high = "high"

abbrev pub severity_medium : Severity
severity_medium = "medium"

abbrev pub severity_low : Severity
severity_low = "low"

pub record Event : Type 0 where
  pub event_manager_id : String
  pub summary : String
  pub severity : Severity
  pub action : Action
  pub class : String
  pub dedup_key : String

-- `Severity.IsValid`
abbrev pub severity_is_valid : Severity → Bool
severity_is_valid s = s == severity_high || (s == severity_medium || s == severity_low)

-- `Action.IsValid`
abbrev pub action_is_valid : Action → Bool
action_is_valid a = a == action_trigger || a == action_resolve

-- `Event.Validate`; `none` is the nil error.
unfoldable pub validate_event : Event → Option Error
validate_event e =
    if e.event_manager_id == ""
    then some empty_event_manager_id
    else if e.summary == ""
    then some empty_summary
    else if not (severity_is_valid e.severity)
    then some invalid_severity
    else if not (action_is_valid e.action)
    then some invalid_action
    else if e.dedup_key == ""
    then some empty_dedup_key
    else none

-- The embedded `Event` lends its fields.
pub record InternalEvent : Type 0 where
  pub event : Event
  pub open event use *
  pub partition_key : String
  pub grouping_value : String
  pub received_at : Time
