-- ===== src/Processor/Tests/History.antt =====
-- A small history of the processor: alert A opens a window, B joins it, a resolve of A waits for B, and the resolve
-- of B completes it.
use Prim.Native.String as Text
use text.Mathlib.TextLemmas.{append_cancel_left, length-append}
use argus_go.Base.{ℕ, zero, suc, String, [], ◌∷◌, Option, none, some, ◌≡◌, refl, ap, arith}
use argus_go.Base.Int.{pos, ◌+ℤ◌}
use argus_go.Base.Map.{get, put, delete, count, values, size}
use argus_go.Domain.{InternalEvent, EventManager, GroupingRule, Alert, time_window}
use argus_go.Memory.Alerts.{create, index_child, update_found, count_active_children}
use argus_go.Memory.States.{parent_key}
use argus_go.Memory.EventManagers
use argus_go.Memory.GroupingRules
use argus_go.Processor.{
  handle_event, handle_message, handle_trigger, handle_resolve, create_parent_alert,
  create_child_alert, reactivate_alert, complete_parent_resolution, check_parent_resolution,
  resolve_child_alert, request_resolution, resolve_parent_alert,
}
use argus_go.Processor.World.{World, Outside, service, init}
use argus_go.Processor.Kept.{Inv}
use argus_go.Processor.Reachable.{start, next, administration, Reach-Inv}
use argus_go.Processor.Messages.{handle_event-Inv}
use argus_go.Processor.Reference.{reference}
use argus_go.Store.{ParentState}
use argus_go.Processor.Changes.{Configured, ticked}
use argus_go.Processor.Runs.{new_parent_of, new_child_of, entry_of}

abbrev pub uuid : ℕ → String
uuid zero = Text.[]
uuid (suc n) = Text.◌++◌ "x" (uuid n)

pub uuid-injective : (m n : ℕ) → uuid m ≡ uuid n → m ≡ n
uuid-injective zero zero e = refl
uuid-injective zero (suc n) e = absurd (omega (arith, ap Text.count e, length-append "x" (uuid n)))
uuid-injective (suc m) zero e = absurd (omega (arith, ap Text.count e, length-append "x" (uuid m)))
uuid-injective (suc m) (suc n) e =
    ap suc (uuid-injective m n (append_cancel_left "x" (uuid m) (uuid n) e))

-- A clock that goes on by a nanosecond with each reading.
abbrev pub outside : Outside
outside = record {
  clock = λ n. pos n;
  uuid = uuid;
  order_set = λ m. [];
  order_alerts = values;
  order_event_managers = values;
  order_grouping_rules = values;
}

abbrev pub team : EventManager
team = record {
  id = "team";
  name = "Team";
  description = "";
  grouping_rule_id = "by_class";
  notification_config = record { webhook_url = "http://hook" };
  created_at = pos 0;
  updated_at = pos 0;
}

abbrev pub by_class : GroupingRule
by_class = record {
  id = "by_class";
  name = "By class";
  grouping_key = "class";
  time_window_minutes = pos 5;
  created_at = pos 0;
  updated_at = pos 0;
}

abbrev pub event_of : String → String → InternalEvent
event_of action key = record {
  event = record {
    event_manager_id = "team";
    summary = "disk full";
    severity = "high";
    action = action;
    class = "database";
    dedup_key = key;
  };
  partition_key = "p";
  grouping_value = "database";
  received_at = pos 0;
}

abbrev pub trigger_a : InternalEvent
trigger_a = event_of "trigger" "a"

abbrev pub trigger_b : InternalEvent
trigger_b = event_of "trigger" "b"

abbrev pub resolve_a : InternalEvent
resolve_a = event_of "resolve" "a"

abbrev pub resolve_b : InternalEvent
resolve_b = event_of "resolve" "b"

abbrev pub after : InternalEvent → World → World
after event w = (handle_event (service outside) event w).1

-- The world after each message.
abbrev pub world_0 : World
world_0 = record init {
  event_managers = record { event_managers = ("team", team) ∷ [] };
  grouping_rules = record { grouping_rules = ("by_class", by_class) ∷ [] };
}

abbrev pub world_1 : World
world_1 = after trigger_a world_0

abbrev pub world_2 : World
world_2 = after trigger_b world_1

abbrev pub world_3 : World
world_3 = after resolve_a world_2

abbrev pub world_4 : World
world_4 = after resolve_b world_3

abbrev pub status_of : Option Alert → String
status_of none = ""
status_of (some a) = a.status

-- The line opens what a run of the processor computes with.
unfoldable pub opened_code : Unit {0}
unfolding handle_event handle_trigger handle_resolve create_parent_alert create_child_alert
    reactivate_alert complete_parent_resolution check_parent_resolution resolve_child_alert
    request_resolution resolve_parent_alert handle_message get put delete count values size create
    index_child update_found parent_key EventManagers.get_by_id GroupingRules.get_by_id time_window
    ◌+ℤ◌ reference
opened_code = tt

pub world_0-Inv : Inv outside world_0
world_0-Inv =
    Reach-Inv outside (λ l. none) uuid-injective
      (next start (administration world_0.event_managers world_0.grouping_rules))

pub world_1-Inv : Inv outside world_1
world_1-Inv = handle_event-Inv outside trigger_a world_0 world_0-Inv uuid-injective

pub world_2-Inv : Inv outside world_2
world_2-Inv = handle_event-Inv outside trigger_b world_1 world_1-Inv uuid-injective

pub world_3-Inv : Inv outside world_3
world_3-Inv = handle_event-Inv outside resolve_a world_2 world_2-Inv uuid-injective

pub known : Configured trigger_a team by_class world_0
unfolding opened_code
known = record { its_manager = refl; its_rule = refl }

-- Runs.
two_alerts : count_active_children "a" world_2.repo ≡ 1
unfolding opened_code
two_alerts = refl

all_resolved : status_of (get world_4.repo.by_dedup_key "a") ≡ "resolved"
unfolding opened_code
all_resolved = refl

abbrev pub window_a : ParentState
window_a = (entry_of outside trigger_a by_class (ticked world_0)).state

pub known_1 : Configured trigger_b team by_class world_1
unfolding opened_code
known_1 = record { its_manager = refl; its_rule = refl }

abbrev pub alert_a : Alert
alert_a = new_parent_of outside trigger_a (ticked world_0)

abbrev pub alert_b : Alert
alert_b = new_child_of outside trigger_b window_a (ticked world_1)
