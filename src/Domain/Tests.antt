-- ===== src/Domain/Tests.antt =====
-- Events and rules to run the validation on.
use argus_go.Base.{◌≡◌, ◌↔◌, refl, none, arith, eq_iff}
use argus_go.Base.Int.{pos, ◌<ℤ◌}
use argus_go.Domain.Events.{Event, validate_event}
use argus_go.Domain.GroupingRules.{GroupingRule, time_window, validate_grouping_rule}
use argus_go.Domain.Validation.{WellFormed, validate_event-none_iff}
use argus_go.Domain.Window.{time_window-wraps}

abbrev disk_full : Event
disk_full = record {
  event_manager_id = "team";
  summary = "disk full";
  severity = "high";
  action = "trigger";
  class = "disk";
  dedup_key = "a";
}

abbrev hourly : GroupingRule
hourly = record {
  id = "rule";
  name = "by class";
  grouping_key = "class";
  time_window_minutes = pos 60;
  created_at = pos 0;
  updated_at = pos 0;
}

-- About 292 years and 6 months.
abbrev endless : GroupingRule
endless = record hourly { time_window_minutes = pos 153_722_868 }

validate_event-none_iff_example : (validate_event disk_full ≡ none) ↔ WellFormed disk_full
validate_event-none_iff_example = validate_event-none_iff disk_full

time_window-wraps_example : (validate_grouping_rule endless ≡ none) × (time_window endless <ℤ pos 0)
time_window-wraps_example =
    time_window-wraps endless 153_722_868 (λ e. ground (arith, eq_iff "by class" ""))
      (λ e. ground (arith, eq_iff "class" "")) refl (ground arith) (ground arith)
