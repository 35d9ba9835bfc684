-- ===== src/Processor/Tests.antt =====
-- What the theorems say of the messages of a small history.
pub mod History
mod Order
mod Completion
mod Beside
use Prim.Native.String as Text
use text.Mathlib.TextLemmas.{append_cancel_left, length-append}
use argus_go.Base.{true, err}
use argus_go.Base.Effect.{external}
use argus_go.Base.{
  ℕ, zero, suc, String, List, [], ◌∷◌, Option, none, some, ◌≡◌, refl, ap, arith, eq_iff,
}
use argus_go.Base.Int.{pos, ◌+ℤ◌}
use argus_go.Base.Map.{get, put, delete, count, values, size}
use argus_go.Domain.{InternalEvent, EventManager, GroupingRule, Alert, time_window}
use argus_go.Queue.{Message}
use argus_go.Memory.Alerts.{create, index_child, update_found, count_active_children}
use argus_go.Memory.States.{parent_key}
use argus_go.Memory.EventManagers
use argus_go.Memory.GroupingRules
use argus_go.Processor.{
  handle_event, handle_message, handle_trigger, handle_resolve, create_parent_alert,
  create_child_alert, reactivate_alert, complete_parent_resolution, check_parent_resolution,
  resolve_child_alert, request_resolution, resolve_parent_alert,
}
use argus_go.Processor.World.{World, Outside, service, init}
use argus_go.Processor.Kept.{Inv}
use argus_go.Processor.Reachable.{Reach, start, next, administration, message, Reach-Inv}
use argus_go.Processor.Messages.{handle_event-Inv}
use argus_go.Processor.Stored.{by_alerts, handle_event-eq-by_alerts}
use argus_go.Store.{ParentState}
use argus_go.Processor.Changes.{Stored, Configured, Change, ticked, handle_event-Change}
use argus_go.Processor.Runs.{new_parent_of, new_child_of, entry_of}
use argus_go.Processor.Frame.{handle_event-frame}
use argus_go.Processor.Resolution.{resolved-parent-has_no_active_child}
use argus_go.Processor.Waiting.{resolve-waits, resolve-last_child}
use argus_go.Processor.Grouping.{trigger-opens, trigger-joins, second_trigger}
use argus_go.Queue.Memory.{MemoryQueue, ending}
use argus_go.Processor.Consumer
use argus_go.Processor.Consumer.{each_handled, start-handles}
use argus_go.Processor.Notices.{Notifies, handle_event-Notifies, handle_event-failure}
use argus_go.Processor.Tests.History.{
  uuid, uuid-injective, outside, team, by_class, event_of, trigger_a, trigger_b, resolve_a,
  resolve_b, after, world_0, world_1, world_2, world_3, world_4, status_of, opened_code,
  world_0-Inv, world_1-Inv, world_2-Inv, world_3-Inv, known, window_a, known_1, alert_a, alert_b,
}

handle_event-eq-by_alerts_example :
    handle_event (service outside) resolve_b world_3 ≡ by_alerts outside resolve_b world_3
handle_event-eq-by_alerts_example = handle_event-eq-by_alerts outside resolve_b world_3-Inv

abbrev unmarshal_a : List ℕ → Option InternalEvent
unmarshal_a l = some trigger_a

abbrev message_a : Message
message_a = record { key = []; value = []; headers = [] }

Reach-Inv_example : Inv outside (handle_message (service outside) unmarshal_a message_a world_0).1
Reach-Inv_example = Reach-Inv outside unmarshal_a uuid-injective (
    next (next start (administration world_0.event_managers world_0.grouping_rules))
      (message message_a))

handle_event-Change_example : Change outside resolve_b world_3 world_4
handle_event-Change_example = handle_event-Change outside resolve_b world_3 world_3-Inv

-- Resolving child b leaves an unrelated key alone.
handle_event-frame_example :
    (get world_4.repo.by_dedup_key "z" ≡ get world_3.repo.by_dedup_key "z")
    × (get world_4.states.alerts "z" ≡ get world_3.states.alerts "z")
unfolding opened_code
handle_event-frame_example =
    handle_event-frame outside resolve_b world_3 "z" uuid-injective world_3-Inv
      (λ e. ground (arith, eq_iff "z" "b")) (λ a e p. ground (arith, eq_iff "a" "z"))

resolved-parent-has_no_active_child_example : count_active_children "a" world_4.repo ≡ 0
unfolding opened_code
resolved-parent-has_no_active_child_example =
    resolved-parent-has_no_active_child outside resolve_b world_3 "a" _ _ world_3-Inv refl refl refl
      refl refl

resolve-waits_example : (world_3.log ≡ world_2.log)
unfolding opened_code
resolve-waits_example =
    (resolve-waits outside resolve_a world_2 world_2-Inv _ refl refl refl refl (omega arith)).3

resolve-last_child_example : count_active_children "a" world_4.repo ≡ 0
unfolding opened_code
resolve-last_child_example =
    (resolve-last_child outside resolve_b world_3 world_3-Inv _ refl refl _ refl refl
      (λ e. ground (arith, eq_iff "a" "")) refl refl refl).4

trigger-opens_example : Stored world_1 "a" alert_a
unfolding opened_code
trigger-opens_example =
    (trigger-opens outside trigger_a world_0 world_0-Inv team by_class refl known refl refl).1

trigger-joins_example : Stored world_2 "b" alert_b
unfolding opened_code
trigger-joins_example =
    (trigger-joins outside trigger_b world_1 world_1-Inv team by_class refl known_1 refl window_a _
      refl refl refl (λ e. ground (arith, eq_iff "a" ""))).1

second_trigger_example : Stored world_2 "b" alert_b
unfolding opened_code
second_trigger_example =
    second_trigger outside trigger_a trigger_b world_0 team by_class uuid-injective world_0-Inv refl
      refl known refl refl (λ e. ground (arith, eq_iff "b" "a")) refl refl refl
      (λ e. ground (arith, eq_iff "a" ""))

handle_event-Notifies_example : Notifies world_3 world_4
handle_event-Notifies_example = handle_event-Notifies outside resolve_b world_3 world_3-Inv

handle_event-failure_example : (handle_event (service outside) trigger_a init).1 ≡ init
unfolding opened_code
handle_event-failure_example =
    (handle_event-failure outside trigger_a init
      (Reach-Inv outside (λ l. none) uuid-injective start) _ refl).0

abbrev closed_queue : MemoryQueue
closed_queue = record { messages = message_a ∷ message_a ∷ []; capacity = 2; closed = true }

-- The context ends after the first of two messages.
start-handles_example :
    Consumer.start outside unmarshal_a (ending 1 (external "canceled")) closed_queue init
    ≡ some (err (external "canceled"), each_handled outside unmarshal_a (message_a ∷ []) init)
start-handles_example =
    (start-handles outside unmarshal_a (ending 1 (external "canceled")) closed_queue start).0
