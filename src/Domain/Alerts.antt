-- ===== src/Domain/Alerts.antt =====
-- internal/domain/alert.go. `time.Now()` is an argument, the reading of the clock. `ChildCount` is
-- kept as its 64-bit pattern, which the increment wraps around.
use argus_go.Base.{ℕ, ◌+◌, ◌%◌, String, Bool, true, false, Option, none, some, ◌==◌}
use argus_go.Base.Int.{ℤ, two_64}
use argus_go.Domain.Events.{Event, Severity, Time}

abbrev pub AlertType : Type 0
AlertType = String

abbrev pub alert_type_parent : AlertType
alert_type_parent = "parent"

abbrev pub alert_type_child : AlertType
alert_type_child = "child"

abbrev pub AlertStatus : Type 0
AlertStatus = String

abbrev pub alert_status_active : AlertStatus
alert_status_active = "active"

abbrev pub alert_status_resolved : AlertStatus
alert_status_resolved = "resolved"

pub record Alert : Type 0 where
  pub id : String
  pub dedup_key : String
  pub event_manager_id : String
  pub summary : String
  pub severity : Severity
  pub class : String
  pub type : AlertType
  pub status : AlertStatus
  pub parent_dedup_key : String
  pub child_count : ℕ
  pub resolve_requested : Bool
  pub created_at : Time
  pub updated_at : Time
  pub resolved_at : Option Time

-- `NewParentAlert`; the fields that the literal leaves out are zero values.
abbrev pub new_parent_alert : Event → Time → Alert
new_parent_alert event now = record {
  id = "";
  dedup_key = event.dedup_key;
  event_manager_id = event.event_manager_id;
  summary = event.summary;
  severity = event.severity;
  class = event.class;
  type = alert_type_parent;
  status = alert_status_active;
  parent_dedup_key = "";
  child_count = 0;
  resolve_requested = false;
  created_at = now;
  updated_at = now;
  resolved_at = none;
}

-- `NewChildAlert`
abbrev pub new_child_alert : Event → String → Time → Alert
new_child_alert event parent_dedup_key now = record {
  id = "";
  dedup_key = event.dedup_key;
  event_manager_id = event.event_manager_id;
  summary = event.summary;
  severity = event.severity;
  class = event.class;
  type = alert_type_child;
  status = alert_status_active;
  parent_dedup_key = parent_dedup_key;
  child_count = 0;
  resolve_requested = false;
  created_at = now;
  updated_at = now;
  resolved_at = none;
}

abbrev pub is_parent : Alert → Bool
is_parent a = a.type == alert_type_parent

abbrev pub is_child : Alert → Bool
is_child a = a.type == alert_type_child

abbrev pub is_active : Alert → Bool
is_active a = a.status == alert_status_active

abbrev pub is_resolved : Alert → Bool
is_resolved a = a.status == alert_status_resolved

-- `Alert.Resolve`
abbrev pub resolve : Alert → Time → Alert
resolve a now = record a {
  status = alert_status_resolved;
  updated_at = now;
  resolved_at = some now;
  resolve_requested = false;
}

-- `Alert.MarkResolveRequested`
abbrev pub mark_resolve_requested : Alert → Time → Alert
mark_resolve_requested a now = record a { resolve_requested = true; updated_at = now }

-- `Alert.IncrementChildCount`
abbrev pub increment_child_count : Alert → Time → Alert
increment_child_count a now = record a {
  child_count = (a.child_count + 1) % two_64;
  updated_at = now;
}

-- `AlertFilter`; `Limit` and `Offset` are signed.
pub record AlertFilter : Type 0 where
  pub event_manager_id : String
  pub status : AlertStatus
  pub type : AlertType
  pub limit : ℤ
  pub offset : ℤ
