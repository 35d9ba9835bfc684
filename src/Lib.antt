-- ===== src/Lib.antt =====
-- argus-go groups events into alerts. An event comes in over the HTTP API (internal/api), the
-- ingest service (internal/ingest) puts it on a queue (internal/queue), and the processor
-- (internal/processor) takes it from there: a first trigger for a key makes a parent alert, which
-- opens a window of time for its event manager, grouping key and grouping value, or a child of the
-- alert whose window is open; a resolve closes a child at once and a parent when no child of it is
-- active. The processor keeps a cached state of each alert in a state store and the alert itself in
-- a repository (internal/store), and it tells a notifier (internal/notification) of every parent
-- that it opens or resolves.
--
-- The files, and the code that they model:
-- - Base: errors, results and the effects of a method (Base.Effect), the int64 arithmetic of
--   durations (Base.Int), association lists for Go's maps (Base.Map), Boolean tests (Base.Tests).
-- - Domain: internal/domain. Events (event.go), Alerts (alert.go), EventManagers
--   (event_manager.go), GroupingRules (grouping_rule.go); theorems in Validation and Window.
-- - Store: internal/store/state_store.go and repository.go. Each interface is a record of methods
--   over a world that holds the store; a method returns its result and the next world.
--   Store.Contract says what the processor may expect of a state store, as an abstract content and
--   what each operation does to it.
-- - Memory: internal/store/memory. States (state_store.go), Alerts (alert_repository.go, with the
--   index of children in Alerts.Index and Alerts.Invariant), EventManagers and GroupingRules.
-- - Queue: internal/queue/queue.go; Queue.Memory: internal/queue/memory/queue.go, and
--   in Queue.Memory.Runs publishers, consumers and a closer as a step relation; Queue.Kafka:
--   internal/queue/kafka/producer.go and consumer.go, with the constructors in Queue.Kafka.Connection.
-- - Ingest: internal/ingest/service.go, and in Ingest.World its wiring in memory mode.
-- - Api: internal/api. Responses (response.go), Events (ingest_handler.go), EventManagers, GroupingRules
--   and Alerts (the handlers of event_manager_handler.go, grouping_rule_handler.go and
--   alert_handler.go), Queries (the filter that alert_handler.go reads from a query), and World: the
--   routes of server.go as a function from requests to replies, over the in-memory stores; Server is
--   how server.go makes, starts and shuts down the server.
-- - Redis: internal/store/redis/state_store.go; Redis.Server says what a Redis client does as far as
--   the store relies on it, and Redis.Represents how keys stand for the content of Store.Contract.
--   Redis.Connection is `NewStateStore` and `Close`.
-- - Postgres: internal/store/postgres. Alerts, EventManagers and GroupingRules are the repositories,
--   Alerts.Statements has the statements for alerts, Tables says what a table does with them and
--   Rows what reads back; Database is db.go.
-- - Config: internal/config/config.go.
-- - Command: cmd/argus/main.go. Command itself is `initDependencies` in both storage modes, over the
--   types of Command.Parts, with the in-memory stores lifted to the whole process by Store.Lifted;
--   Command.Lifecycle is main from the start of its goroutines on, as a step relation;
--   Command.Shutdown and Command.Connections prove how it ends, Command.Wired what memory mode
--   wires. A cleanup function is a datum that says what it closes. Base.Triple holds conditions
--   before and after an action.
-- - Notification: internal/notification/notifier.go.
-- - Processor: internal/processor/service.go, each method under its own name in snake case, over
--   the interfaces of Store. Processor.World gives them the in-memory stores, as
--   cmd/argus/main.go does in memory mode. Processor.Invariant says what holds between messages,
--   Processor.Runs what each method does where it holds, Processor.Reference and Processor.Stored
--   what the handler does in terms of the stored alerts, Processor.Writes, Counts, Kept and
--   Handled that it is kept; Processor.Beside runs the processor over any state store that keeps
--   Store.Contract, beside the in-memory repositories, and shows that it refines memory mode. The
--   other files hold the theorems that their names tell.
--
-- Conventions: a time is an integer of nanoseconds; `time.Now()` reads a clock that the
-- environment (Outside) gives, one reading after another, in no assumed order, and `uuid.New()`
-- reads a sequence of texts, distinct where a theorem needs it. The order in which Go ranges over
-- a map is a function of the environment. Windows are int64 nanoseconds and wrap around. No
-- definition needs fuel: every loop runs over a list. JSON, YAML, SHA-256
-- and the bytes of a text are parameters, and so is what fiber parses of a request.
-- The methods of the in-memory stores hold a mutex for their whole bodies and copy what they take
-- and return, so they run one after another on values. The processor handles one message after
-- another, as the consumers do.
--
-- A run of the Kafka consumer is a list of what the calls of each round return, since its loop ends
-- only where one of them says so. Redis, PostgreSQL and Kafka are reached through records of the calls
-- that the code makes of their clients; what the theorems need of them stands in their hypotheses.
-- SQL statements are texts, with their white space collapsed. What a column keeps of a value is a
-- parameter: a time loses what is finer than a microsecond, and a text that is too long or a number out
-- of range is refused.
--
-- The context of the in-memory consumer is never done, or done after a number of messages; a select
-- that can take both branches takes the one that the context says. A publisher that finds the channel
-- full waits until its context ends, or, in Queue.Memory.Runs, until there is room; a call that
-- waits for ever has no result.
--
-- Not modelled: logging, the flag of the command line, contexts and their deadlines beyond those
-- of the consumers, of Publish and of main, what fiber and its middleware do with a request before the
-- handlers, and the libraries' connections themselves. main's calls of Shutdown, Stop and the cleanup
-- functions are taken to return.
mod Base
pub mod Domain
pub mod Store
pub mod Postgres
pub mod Redis
pub mod Memory
pub mod Queue
pub mod Notification
pub mod Processor
pub mod Ingest
pub mod Api
pub mod Command
pub mod Config
