-- ===== src/Processor/Tests/Completion.antt =====
-- The parent of the small history waits for its child, and is completed.
use argus_go.Base.{String, ℕ, List, [], ◌∷◌, Option, some, ◌≡◌, refl}
use argus_go.Base.Int.{pos}
use argus_go.Base.Lists.{length}
use argus_go.Domain.{InternalEvent, Alert, mark_resolve_requested, increment_child_count}
use argus_go.Queue.{Message}
use argus_go.Memory.Alerts.{count_active_children}
use argus_go.Processor.{handle_message}
use argus_go.Processor.Reachable.{Reach, start, next, administration, message}
use argus_go.Processor.Completion.{Completes, waiting-Completes}
use argus_go.Processor.Tests.History.{
  outside, uuid-injective, trigger_a, trigger_b, resolve_a, world_0, world_3, opened_code, alert_a,
}

abbrev unmarshal : List ℕ → Option InternalEvent
unmarshal [] = some trigger_a
unmarshal (b ∷ []) = some trigger_b
unmarshal (b ∷ c ∷ l) = some resolve_a

abbrev message_with : List ℕ → Message
message_with value = record { key = []; value = value; headers = [] }

world_3-Reach : Reach outside unmarshal world_3
unfolding handle_message
world_3-Reach =
    next
      (next
        (next (next start (administration world_0.event_managers world_0.grouping_rules))
          (message (message_with [])))
        (message (message_with (1 ∷ []))))
      (message (message_with (1 ∷ 1 ∷ [])))

abbrev waiting_a : Alert
waiting_a = mark_resolve_requested (increment_child_count alert_a (pos 7)) (pos 8)

waiting-Completes_example :
    (js : List String) × (length js ≡ count_active_children "a" world_3.repo)
    × Completes outside "a" waiting_a world_3 js
unfolding opened_code
waiting-Completes_example =
    waiting-Completes outside unmarshal "a" waiting_a uuid-injective world_3-Reach refl refl
