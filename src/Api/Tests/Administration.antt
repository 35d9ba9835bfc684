-- ===== src/Api/Tests/Administration.antt =====
-- Requests to the handlers of internal/api in memory mode.
use argus_go.Base.{ℕ, suc, String, some, ◌<◌, ◌≡◌, Error}
use argus_go.Base.Int.{pos}
use argus_go.Domain.{CreateEventManagerRequest}
use argus_go.Processor.World.{init}
use argus_go.Processor.Kept.{Inv}
use argus_go.Processor.Tests.History.{outside, team, uuid-injective}
use argus_go.Queue.Memory.{new_queue}
use argus_go.Ingest.World.{System}
use argus_go.Ingest.Samples.{alive, codec, unmarshal}
use argus_go.Api.World.{Request, serve}
use argus_go.Api.Queries.{AlertQuery, filter_of}
use argus_go.Api.Queries.Bounds.{filter_of_bounds}
use argus_go.Api.Traffic.{Traffic, idle, next, request, Traffic-Inv}

abbrev text : Error → String
text e = "invalid"

abbrev query : AlertQuery
query = record { event_manager_id = ""; status = "active"; type = ""; limit = "25"; offset = "-3" }

filter_of_bounds_example :
    ((l : ℕ) × ((filter_of query).limit ≡ pos (suc l)) × (suc l < 9_223_372_036_854_775_808))
    × ((i : ℕ) × ((filter_of query).offset ≡ pos i) × (i < 9_223_372_036_854_775_808))
filter_of_bounds_example = filter_of_bounds query

abbrev at_rest : System
at_rest = record { world = init; queue = new_queue 3; request = alive }

at_rest-Traffic : Traffic outside text codec unmarshal 3 at_rest
at_rest-Traffic = idle alive

abbrev body : CreateEventManagerRequest
body = record {
  name = "Other team";
  description = "";
  grouping_rule_id = "by_class";
  notification_config = team.notification_config;
}

Traffic-Inv_example :
    Inv outside (serve outside text codec (Request.post_event_manager (some body)) at_rest).1.world
Traffic-Inv_example =
    Traffic-Inv outside text codec unmarshal uuid-injective
      (next at_rest-Traffic (request (Request.post_event_manager (some body)) alive))
