-- ===== src/Command/Tests.antt =====
-- Runs of main over the libraries of Command.Network: what it wires, and how it ends after a signal.
use argus_go.Config.{Config}
use argus_go.Domain.{InternalEvent}
use argus_go.Queue.{Message}
use argus_go.Processor.{handle_message}
use argus_go.Processor.World.{service}
use argus_go.Processor.Tests.History.{trigger_a}
use argus_go.Command.Wired.{lifted, init_dependencies-memory}
use argus_go.Base.{ℕ, Option, ok, List, [], Bool, false, ◌+◌, ◌≤◌, some, ◌≡◌, ◌⊎◌, refl}
use argus_go.Base.Lists.{length}
use argus_go.Ingest.Samples.{outside, codec}
use argus_go.Postgres.Database.{new_db, run_migrations}
use argus_go.Redis.Connection.{new_state_store}
use argus_go.Queue.Kafka.Connection.{new_producer, new_consumer}
use argus_go.Command.{Dependencies, Resource, init_dependencies, init_storage, wired}
use argus_go.Command.Lifecycle.{Runtime, exited, main_step, here}
use argus_go.Command.Shutdown.{Ordered, Run-Ordered, Run-Ends}
use argus_go.Command.Connections.{pool}
use argus_go.Command.Connections.Closed.{Run-Closed}
use argus_go.Command.Network.{Process, platform, IsOpen, platform-IsTracked}
use argus_go.Command.Samples.{
  still_open, has_exited, before, after, dependencies, cleanup_funcs, Works, sample_duties, at_step,
  signalled, stored, run_2, run_8,
}

Run-Ordered_example : Ordered sample_duties (at_step 8)
Run-Ordered_example = Run-Ordered sample_duties {Works = Works} after run_8

Run-Ends_example :
    (2 ≤ length cleanup_funcs + 4)
    × (((at_step 2).phase ≡ exited)
        ⊎ ((u : Runtime (Resource Bool Unit Unit Unit) Process) × (main_step sample_duties
                (at_step 2)
              ≡ some u)))
unfolding at_step
Run-Ends_example =
    Run-Ends sample_duties {Works = Works} after signalled refl (run_2 (at_step 0) here)

Run-Closed_example : IsOpen before.outside (pool false)
unfolding at_step init_dependencies init_storage new_db run_migrations new_state_store new_producer
    new_consumer wired
Run-Closed_example =
    Run-Closed outside platform platform-IsTracked codec (λ e. "error") Works
      (λ m v h same is_open. rw same is_open) stored before after dependencies cleanup_funcs refl
      run_8 has_exited (pool false) still_open

abbrev in_memory : Config
in_memory = record stored { storage = record { mode = "memory" } }

abbrev trigger_only : List ℕ → Option InternalEvent
trigger_only l = some trigger_a

abbrev first_message : Message
first_message = record { key = []; value = []; headers = [] }

init_dependencies-memory_example :
    (deps : Dependencies Unit Process) × (funcs : List (Resource Bool Unit Unit Unit))
    × (m' : Process) × (init_dependencies outside platform codec (λ e. "error") in_memory before
        ≡ (ok (deps, funcs), m'))
    × (handle_message deps.processor.service trigger_only first_message after
        ≡ lifted after
            (handle_message (service outside) trigger_only first_message after.system.world))
init_dependencies-memory_example =
    init_dependencies-memory outside platform codec (λ e. "error") in_memory trigger_only
      first_message before after refl
