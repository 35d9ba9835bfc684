-- ===== src/Config/Tests.antt =====
-- Configurations that internal/config/config.go loads.
use argus_go.Base.{[], ok, ◌≡◌, refl}
use argus_go.Base.Int.{pos}
use argus_go.Config.{Config, load, apply_defaults, address}
use argus_go.Config.Defaults.{IsComplete, load-IsComplete}

-- A file that sets only the port and the storage mode.
abbrev sparse : Config
sparse = record {
  storage = record { mode = "storage" };
  server = record {
    host = "";
    port = pos 9000;
    read_timeout = pos 0;
    write_timeout = pos 0;
    idle_timeout = pos 0;
  };
  kafka = record { brokers = []; topic = ""; consumer_group = ""; partition_count = pos 0 };
  redis = record { host = ""; port = pos 0; password = ""; db = pos 0 };
  postgres = record {
    host = "";
    port = pos 0;
    user = "argus";
    password = "";
    database = "alerts";
    ssl_mode = "";
    max_open_conns = pos 0;
    max_idle_conns = pos 0;
  };
  logger = record { level = ""; format = "" };
}

address-sparse : address (apply_defaults sparse).server ≡ "0.0.0.0:9000"
unfolding address apply_defaults
address-sparse = refl

abbrev loaded : Config
loaded = apply_defaults sparse

load-IsComplete_example : IsComplete loaded × (apply_defaults loaded ≡ loaded)
unfolding load
load-IsComplete_example =
    load-IsComplete (λ path. path) (λ path. ok []) (λ bytes. ok sparse) "config.yaml" loaded refl
