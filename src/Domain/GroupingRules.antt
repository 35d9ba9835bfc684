-- ===== src/Domain/GroupingRules.antt =====
-- internal/domain/grouping_rule.go. A `time.Duration` is an int64 of nanoseconds, so the product
-- in `TimeWindow` wraps around.
use argus_go.Base.{ℕ, String, Option, none, some, Error, ◌==◌, if◌then◌else◌}
use argus_go.Base.Effect.{empty_name, empty_grouping_key, invalid_time_window}
use argus_go.Base.Int.{ℤ, pos, le_ℤ, ◌*ℕ◌, wrap64}
use argus_go.Domain.Events.{Event, Time}

pub record GroupingRule : Type 0 where
  pub id : String
  pub name : String
  pub grouping_key : String
  pub time_window_minutes : ℤ
  pub created_at : Time
  pub updated_at : Time

-- `GroupingRule.Validate`
unfoldable pub validate_grouping_rule : GroupingRule → Option Error
validate_grouping_rule gr =
    if gr.name == ""
    then some empty_name
    else if gr.grouping_key == ""
    then some empty_grouping_key
    else if le_ℤ gr.time_window_minutes (pos 0)
    then some invalid_time_window
    else none

abbrev pub Duration : Type 0
Duration = ℤ

-- `time.Minute`, in nanoseconds.
abbrev pub minute : ℕ
minute = 60_000_000_000

-- `GroupingRule.TimeWindow`
unfoldable pub time_window : GroupingRule → Duration
unfolding wrap64 ◌*ℕ◌
time_window gr = wrap64 (gr.time_window_minutes *ℕ minute)

-- `GroupingRule.ExtractGroupingValue`
unfoldable pub extract_grouping_value : GroupingRule → Event → String
extract_grouping_value gr event =
    if gr.grouping_key == "class"
    then event.class
    else if gr.grouping_key == "severity"
    then event.severity
    else if gr.grouping_key == "event_manager_id"
    then event.event_manager_id
    else ""

pub record CreateGroupingRuleRequest : Type 0 where
  pub name : String
  pub grouping_key : String
  pub time_window_minutes : ℤ

-- `CreateGroupingRuleRequest.Validate`
unfoldable pub validate_create_grouping_rule : CreateGroupingRuleRequest → Option Error
validate_create_grouping_rule r =
    if r.name == ""
    then some empty_name
    else if r.grouping_key == ""
    then some empty_grouping_key
    else if le_ℤ r.time_window_minutes (pos 0)
    then some invalid_time_window
    else none

-- `ToGroupingRule`
unfoldable pub to_grouping_rule : CreateGroupingRuleRequest → String → Time → GroupingRule
to_grouping_rule r id now = record {
  id = id;
  name = r.name;
  grouping_key = r.grouping_key;
  time_window_minutes = r.time_window_minutes;
  created_at = now;
  updated_at = now;
}

pub record UpdateGroupingRuleRequest : Type 0 where
  pub name : String
  pub grouping_key : String
  pub time_window_minutes : ℤ

-- `UpdateGroupingRuleRequest.Validate`
unfoldable pub validate_update_grouping_rule : UpdateGroupingRuleRequest → Option Error
validate_update_grouping_rule r =
    if r.name == ""
    then some empty_name
    else if r.grouping_key == ""
    then some empty_grouping_key
    else if le_ℤ r.time_window_minutes (pos 0)
    then some invalid_time_window
    else none

-- `UpdateGroupingRuleRequest.ApplyTo`
unfoldable pub apply_to_grouping_rule :
    UpdateGroupingRuleRequest → GroupingRule → Time → GroupingRule
apply_to_grouping_rule r gr now = record gr {
  name = r.name;
  grouping_key = r.grouping_key;
  time_window_minutes = r.time_window_minutes;
  updated_at = now;
}
