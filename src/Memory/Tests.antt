-- ===== src/Memory/Tests.antt =====
-- Runs of the in-memory stores.
use argus_go.Base.{ℕ, none, ◌≡◌, refl, arith}
use argus_go.Base.Int.{pos, ◌+ℤ◌}
use argus_go.Base.Lists.{length}
use argus_go.Base.Map.{values, put}
use argus_go.Domain.{Alert, AlertFilter, new_parent_alert, Event}
use argus_go.Store.{ParentState}
use argus_go.Memory.Alerts.{
  MemoryAlertRepository, new_alert_repository, create, list, select, passes, index_child,
}
use argus_go.Memory.Alerts.Pages.{matching, list-overflow}
use argus_go.Memory.States.{new_state_store, parent_key, get_parent, set_parent}
use argus_go.Memory.States.Windows.{get_parent-set_parent}

abbrev event : Event
event = record {
  event_manager_id = "team";
  summary = "disk full";
  severity = "high";
  action = "trigger";
  class = "disk";
  dedup_key = "a";
}

abbrev first_alert : Alert
first_alert = record (new_parent_alert event (pos 0)) { id = "1" }

abbrev second_alert : Alert
second_alert = record first_alert { id = "2"; dedup_key = "b" }

abbrev repository : MemoryAlertRepository
repository = create second_alert (create first_alert new_alert_repository)

abbrev from : ℕ → ℕ → AlertFilter
from i j = record {
  event_manager_id = "";
  status = "active";
  type = "";
  limit = pos j;
  offset = pos i;
}

two_match : (i j : ℕ) → length (matching values (from i j) repository) ≡ 2
unfolding create index_child select passes put values
two_match i j = refl

list-overflow_example : list values (from 1 9_223_372_036_854_775_807) repository ≡ none
unfolding create index_child select passes put values
list-overflow_example =
    list-overflow values (from 1 9_223_372_036_854_775_807) repository 0 refl refl
      (ground (arith, two_match 1 9_223_372_036_854_775_807))
      (ground (arith, two_match 1 9_223_372_036_854_775_807))

abbrev opened : ParentState
opened = record { dedup_key = "a"; created_at = pos 0; child_count = 0 }

get_parent-set_parent_example :
    get_parent "team" "class" "disk"
      (pos 9)
      (set_parent "team" "class" "disk" opened (pos 5) (pos 3) new_state_store)
    ≡ none
unfolding parent_key ◌+ℤ◌
get_parent-set_parent_example =
    get_parent-set_parent "team" "class" "disk" "team" "class" "disk" opened (pos 5) (pos 3) (pos 9)
      new_state_store
