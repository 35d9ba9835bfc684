-- ===== src/Ingest/Tests.antt =====
-- The event of Ingest.Samples on its way through the service.
use argus_go.Base.{◌≡◌, refl}
use argus_go.Base.Map.{get, put}
use argus_go.Domain.{extract_grouping_value}
use argus_go.Memory.EventManagers
use argus_go.Memory.GroupingRules
use argus_go.Queue.Memory.{send}
use argus_go.Ingest.{ingest_event, compute_partition_key}
use argus_go.Ingest.World.{ingest_service}
use argus_go.Ingest.Publishing.{Ingested, ingest_event-Ingested}
use argus_go.Ingest.Delivery.{Delivers, ingest_event-Delivers}
use argus_go.Ingest.Samples.{outside, event, codec, unmarshal, codec-RoundTrips, system}

key : compute_partition_key codec "team" "disk" ≡ "ff00"
unfolding compute_partition_key
key = refl

ingest_event-Ingested_example :
    Ingested outside codec event system (ingest_event codec (ingest_service outside) event system)
ingest_event-Ingested_example = ingest_event-Ingested outside codec event system

ingest_event-Delivers_example :
    Delivers outside codec unmarshal event system
      (ingest_event codec (ingest_service outside) event system).1
unfolding ingest_event EventManagers.get_by_id GroupingRules.get_by_id send compute_partition_key
    extract_grouping_value get put
ingest_event-Delivers_example =
    ingest_event-Delivers outside codec unmarshal event system codec-RoundTrips refl
