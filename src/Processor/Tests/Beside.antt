-- ===== src/Processor/Tests/Beside.antt =====
-- The processor over a state store in Redis.
use argus_go.Base.{arith, ℕ, String, Option, some, List, [], ok, ◌≡◌, is_some}
use argus_go.Base.Int.{pos}
use argus_go.Base.Map.{get}
use argus_go.Domain.{InternalEvent}
use argus_go.Queue.{Message}
use argus_go.Store.{StateStore, PendingResolve}
use argus_go.Store.Contract.{Content, Implements, InRange}
use argus_go.Redis.{redis_state_store}
use argus_go.Redis.Commands
use argus_go.Redis.Refines.{redis_state_store-Implements}
use argus_go.Redis.Samples.{
  Server, client, codec, entry, member, client-IsServer, codec-IsCodec, empty_server,
  empty_server-Holds,
}
use argus_go.Processor.{handle_message}
use argus_go.Processor.World.{World, Outside, service, init}
use argus_go.Processor.Invariant.{cached, is_requested, IsCounted, IsWaiting}
use argus_go.Processor.Beside.{service_beside, with_clock, Simulates}
use argus_go.Processor.Beside.Calls.{Any}
use argus_go.Processor.Beside.Reached.{start, message, administration, Reached-Coherent}
use argus_go.Processor.Beside.Refines.{handle_message-Simulates}
use argus_go.Processor.Tests.History.{outside, trigger_a, uuid-injective, world_0}
use argus_go.Processor.Tests.Order.{keys, keys-IsRange}

-- A clock that stands still.
abbrev still : Outside
still = record outside { clock = λ n. pos 0; order_set = keys }

abbrev store : StateStore Server
store = redis_state_store client codec

abbrev Holds : Server → Content → Type 0
Holds = Commands.Holds client codec entry member

store-Implements : Implements store Holds
store-Implements =
    redis_state_store-Implements client codec entry member client-IsServer codec-IsCodec

still-InRange : (n : ℕ) → InRange (still.clock n)
still-InRange n = omega arith

abbrev trigger_only : List ℕ → Option InternalEvent
trigger_only l = some trigger_a

abbrev first_message : Message
first_message = record { key = []; value = []; headers = [] }

handle_message-Simulates_example :
    Simulates Holds Any
      (handle_message (service_beside store still) trigger_only first_message)
      (λ clock. handle_message (service (with_clock still clock)) trigger_only first_message)
handle_message-Simulates_example =
    handle_message-Simulates store Holds still store-Implements keys-IsRange still-InRange
      trigger_only first_message

-- A team, its rule and the trigger of an alert.
abbrev triggered : Server × World
triggered =
    (handle_message (service_beside store still) trigger_only first_message (
      empty_server,
      record init {
        event_managers = world_0.event_managers;
        grouping_rules = world_0.grouping_rules;
      },
    )).1

Reached-Coherent_example :
    ((k : String)
      → (store.get_alert k triggered.0).0 ≡ ok (cached (get triggered.1.repo.by_dedup_key k)))
    × ((k : String)
        → (p : Option PendingResolve) × ((store.get_pending_resolve k triggered.0).0 ≡ ok p)
          × (is_some p ≡ is_requested (get triggered.1.repo.by_dedup_key k)))
    × IsCounted triggered.1.repo
    × IsWaiting triggered.1.repo
Reached-Coherent_example =
    Reached-Coherent store Holds still store-Implements keys-IsRange still-InRange trigger_only
      empty_server triggered empty_server-Holds uuid-injective
      (message first_message (administration world_0.event_managers world_0.grouping_rules start))
