-- ===== src/Ingest/Samples.antt =====
-- An event, a system that it goes through, and a codec that knows this event alone.
use Prim.Native.String as Text
use argus_go.Base.{
  ℕ, zero, suc, Bool, true, false, ◌&&◌, Option, some, List, [], ◌∷◌, ◌≡◌, refl, arith, eq_iff, ok,
  err, ◌==◌, if◌then◌else◌,
}
use argus_go.Base.Effect.{external}
use argus_go.Base.Int.{ℤ, pos, negsuc}
use argus_go.Base.Map
use argus_go.Base.Map.{get, put, values}
use argus_go.Domain.{Event, InternalEvent}
use argus_go.Queue.Memory.{new_queue}
use argus_go.Processor.World.{Outside, init}
use argus_go.Ingest.{Codec}
use argus_go.Ingest.World.{System, RequestContext}
use argus_go.Ingest.Delivery.{RoundTrips}

abbrev pub outside : Outside
outside = record {
  clock = λ n. pos n;
  uuid = λ n. "x";
  order_set = λ m. [];
  order_alerts = values;
  order_event_managers = values;
  order_grouping_rules = values;
}

abbrev pub event : Event
event = record {
  event_manager_id = "team";
  summary = "disk full";
  severity = "high";
  action = "trigger";
  class = "disk";
  dedup_key = "a";
}

abbrev enriched_event : InternalEvent
enriched_event = record {
  event = event;
  partition_key = "ff00";
  grouping_value = "disk";
  received_at = pos 0;
}

abbrev is_origin : ℤ → Bool
is_origin (pos zero) = true
is_origin _ = false

abbrev is_event : InternalEvent → Bool
is_event e =
    (e.event_manager_id == "team" && e.summary == "disk full" && e.severity == "high")
    && (e.action == "trigger" && e.class == "disk" && e.dedup_key == "a")
    && (e.partition_key == "ff00" && e.grouping_value == "disk" && is_origin e.received_at)

abbrev pub codec : Codec
codec = record {
  marshal = λ e. if is_event e then ok [] else err (external "json");
  sum256 = λ l. 255 ∷ 0 ∷ [];
  bytes = λ t. Text.count t ∷ [];
}

abbrev pub unmarshal : List ℕ → Option InternalEvent
unmarshal l = some enriched_event

is_origin_sound : (t : ℤ) → is_origin t ≡ true → t ≡ pos 0
is_origin_sound (pos zero) e = refl
is_origin_sound (pos (suc n)) e = absurd (cc e)
is_origin_sound (negsuc n) e = absurd (cc e)

pub codec-RoundTrips : RoundTrips codec unmarshal
codec-RoundTrips e l h = ground (
  arith,
  eq_iff e.event_manager_id "team",
  eq_iff e.summary "disk full",
  eq_iff e.severity "high",
  eq_iff e.action "trigger",
  eq_iff e.class "disk",
  eq_iff e.dedup_key "a",
  eq_iff e.partition_key "ff00",
  eq_iff e.grouping_value "disk",
  is_origin_sound e.received_at,
)

-- The context of a request that goes through.
abbrev pub alive : RequestContext
alive = record { done = false; error = external "canceled" }

abbrev pub system : System
system = record {
  world = record init {
    event_managers = record {
      event_managers = put Map.empty "team" (record {
        id = "team";
        name = "Team";
        description = "";
        grouping_rule_id = "rule";
        notification_config = record { webhook_url = "https://team" };
        created_at = pos 0;
        updated_at = pos 0;
      });
    };
    grouping_rules = record {
      grouping_rules = put Map.empty "rule" (record {
        id = "rule";
        name = "by class";
        grouping_key = "class";
        time_window_minutes = pos 5;
        created_at = pos 0;
        updated_at = pos 0;
      });
    };
  };
  queue = new_queue 1;
  request = alive;
}
