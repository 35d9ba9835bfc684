-- ===== src/Ingest/World.antt =====
-- The ingest service in memory mode, as cmd/argus/main.go wires it: its repositories are the
-- processor's, and its producer is the queue that the processor consumes.
use argus_go.Base.{Bool, Option, none, some, ok, err, Error, Eff, if◌then◌else◌}
use argus_go.Base.Effect.{panic}
use argus_go.Store.{EventManagerRepository, GroupingRuleRepository}
use argus_go.Store.Lifted.{Part, on_part, event_managers_on, grouping_rules_on}
use argus_go.Queue.{Message, Producer}
use argus_go.Queue.Memory.{MemoryQueue, refuses, send, Sending, delivered, blocked, panics, close}
use argus_go.Processor.World.{
  World, Outside, memory_event_manager_repository, memory_grouping_rule_repository, now,
}
use argus_go.Ingest.{IngestService}

-- The context of a request, as `Publish` meets it: whether its select takes `ctx.Done()` at once, and
-- the error with which the context ends while the select waits. A call that waits for ever is not a run.
pub record RequestContext : Type 0 where
  pub done : Bool
  pub error : Error

pub record System : Type 0 where
  pub world : World
  pub queue : MemoryQueue
  pub request : RequestContext

-- The processor's world, in the system.
abbrev pub world_part : Part World System
world_part = record { view = λ s. s.world; set = λ w s. record s { world = w } }

-- A publisher that finds the channel full waits; with nobody to take a message, it returns when its
-- context ends.
abbrev sent : Sending → Eff System Unit
sent (delivered q) s = (ok tt, record s { queue = q })
sent blocked s = (err s.request.error, s)
sent panics s = (err (panic "send on closed channel"), s)

abbrev publish_open : Message → Option Error → Eff System Unit
publish_open msg (some e) s = (err e, s)
publish_open msg none s =
    if s.request.done then (err s.request.error, s) else sent (send msg s.queue) s

-- `Publish` with no other publisher and no consumer between its steps.
abbrev pub memory_producer : Producer System
memory_producer = record {
  publish = λ msg s. publish_open msg (refuses s.queue) s;
  close = λ s. (ok tt, record s { queue = close s.queue });
}

module _ (o : Outside) where
  abbrev event_managers : EventManagerRepository System
  event_managers = event_managers_on world_part (memory_event_manager_repository o)

  abbrev grouping_rules : GroupingRuleRepository System
  grouping_rules = grouping_rules_on world_part (memory_grouping_rule_repository o)

  abbrev pub ingest_service : IngestService System
  ingest_service = record {
    producer = memory_producer;
    event_manager_repo = event_managers;
    grouping_rule_repo = grouping_rules;
    now = on_part world_part (now o);
  }
