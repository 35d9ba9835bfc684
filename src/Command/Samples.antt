-- ===== src/Command/Samples.antt =====
-- A run of main in storage mode, over the libraries of Command.Network.
use argus_go.Base.{ℕ, zero, suc, Bool, true, false, Option, none, some, List, [], ◌∷◌, ◌≡◌, refl}
use argus_go.Base.Int.{pos}
use argus_go.Config.{Config}
use argus_go.Processor.World.{init}
use argus_go.Queue.Memory.{new_queue, lasting}
use argus_go.Ingest.Samples.{alive, outside, codec}
use argus_go.Command.{
  Resource, Dependencies, wired, storage_wiring, duties, database, redis_store, kafka_producer,
  kafka_consumer,
}
use argus_go.Command.Lifecycle.{
  Duties, Runtime, Run, here, happens, acts, signal, launched, main_step, exited,
}
use argus_go.Command.Connections.{pool}
use argus_go.Postgres.Database
use argus_go.Redis.Connection as RedisConnection
use argus_go.Queue.Kafka.Connection.{close_producer, close_consumer}
use argus_go.Api.Server.{shutdown}
use argus_go.Command.{close_resource}
use argus_go.Command.Network.{Process, platform, IsOpen}

abbrev pub stored : Config
stored = record {
  storage = record { mode = "storage" };
  server = record {
    host = "";
    port = pos 0;
    read_timeout = pos 0;
    write_timeout = pos 0;
    idle_timeout = pos 0;
  };
  kafka = record { brokers = []; topic = ""; consumer_group = ""; partition_count = pos 0 };
  redis = record { host = ""; port = pos 0; password = ""; db = pos 0 };
  postgres = record {
    host = "";
    port = pos 0;
    user = "argus";
    password = "";
    database = "alerts";
    ssl_mode = "";
    max_open_conns = pos 0;
    max_idle_conns = pos 0;
  };
  logger = record { level = ""; format = "" };
}

-- A process that has not opened anything.
abbrev pub before : Process
before = record {
  outside = record {
    old_pool_open = true;
    pool_open = false;
    client_open = false;
    writer_open = false;
    reader_open = false;
  };
  system = record { world = init; queue = new_queue 0; request = alive };
  processing = lasting;
}

-- What it gets.
abbrev pub dependencies : Dependencies Unit Process
unfolding wired
dependencies =
    wired outside platform codec (λ e. "error") stored
      (storage_wiring platform (record { pool = some true }) (record { client = some tt })
        (record { writer = some tt }) (record { reader = some tt }))

abbrev pub cleanup_funcs : List (Resource Bool Unit Unit Unit)
cleanup_funcs =
    database (record { pool = some true })
    ∷ redis_store (record { client = some tt })
    ∷ kafka_producer (record { writer = some tt })
    ∷ kafka_consumer (record { reader = some tt })
    ∷ []

abbrev pub after : Process
after = record before {
  outside = record {
    old_pool_open = true;
    pool_open = true;
    client_open = true;
    writer_open = true;
    reader_open = true;
  };
}

-- The goroutines do nothing.
abbrev pub Works : Process → Process → Type 0
Works m v = m ≡ v

abbrev pub sample_duties : Duties (Resource Bool Unit Unit Unit) Process
sample_duties = duties platform dependencies cleanup_funcs

abbrev Moment : Type 0
Moment = Runtime (Resource Bool Unit Unit Unit) Process

abbrev or_stay : Option Moment → Moment → Moment
or_stay none s = s
or_stay (some t) s = t

-- After a signal and `n` steps of main.
unfoldable pub at_step : ℕ → Moment
at_step zero = record (launched after) { cancelled = true }
at_step (suc n) = or_stay (main_step sample_duties (at_step n)) (at_step n)

acts_on :
    (s : Moment) (n : ℕ)
    → Run sample_duties Works s n (at_step n)
    → main_step sample_duties (at_step n) ≡ some (at_step (suc n))
    → Run sample_duties Works s (suc n) (at_step (suc n))
acts_on s n r e = acts r e

pub signalled : Run sample_duties Works (launched after) 0 (at_step 0)
unfolding at_step
signalled = happens here (signal refl)

pub run_2 :
    (s : Moment) → Run sample_duties Works s 0 (at_step 0) → Run sample_duties Works s 2 (at_step 2)
unfolding at_step main_step
run_2 s r = acts_on s 1 (acts_on s 0 r refl) refl

pub run_8 : Run sample_duties Works (launched after) 8 (at_step 8)
unfolding at_step main_step
run_8 =
    let s = launched after in
    let run_5 = acts_on s 4 (acts_on s 3 (acts_on s 2 (run_2 s signalled) refl) refl) refl in
    acts_on s 7 (acts_on s 6 (acts_on s 5 run_5 refl) refl) refl

pub still_open : IsOpen (at_step 8).world.outside (pool false)
unfolding at_step main_step close_resource Database.close RedisConnection.close close_producer
    close_consumer shutdown dependencies
still_open = refl

pub has_exited : (at_step 8).phase ≡ exited
unfolding at_step main_step
has_exited = refl
