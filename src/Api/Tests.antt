-- ===== src/Api/Tests.antt =====
-- A request to `POST /v1/events` that is accepted, and one that is not.
mod Administration
use argus_go.Base.{none, some, ◌≡◌, refl, arith, Error, String}
use argus_go.Base.Map.{get, put}
use argus_go.Domain.{validate_event, extract_grouping_value}
use argus_go.Domain.Validation.{WellFormed}
use argus_go.Memory.EventManagers
use argus_go.Memory.GroupingRules
use argus_go.Queue.Memory.{send}
use argus_go.Ingest.{ingest_event, compute_partition_key}
use argus_go.Ingest.World.{ingest_service}
use argus_go.Ingest.Delivery.{Delivers}
use argus_go.Ingest.Samples.{outside, event, codec, unmarshal, codec-RoundTrips, system}
use argus_go.Api.Events.{handle_ingest_event}
use argus_go.Api.Accepted.{handle_ingest_event-refused, handle_ingest_event-accepted}

abbrev text : Error → String
text e = "invalid"

handle_ingest_event-accepted_example :
    WellFormed event
    × Delivers outside codec unmarshal event system
        (handle_ingest_event codec (ingest_service outside) text (some event) system).1
unfolding handle_ingest_event validate_event ingest_event EventManagers.get_by_id
    GroupingRules.get_by_id send compute_partition_key extract_grouping_value get put
handle_ingest_event-accepted_example =
    handle_ingest_event-accepted outside codec text system unmarshal event codec-RoundTrips refl
