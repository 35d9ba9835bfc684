-- ===== src/Api/Events.antt =====
-- `IngestHandler.IngestEvent` of internal/api/ingest_handler.go.
use argus_go.Base.{String, Option, none, some, Result, ok, err, Error}
use argus_go.Domain.{Event, validate_event}
use argus_go.Ingest.{Codec, IngestService, ingest_event}
use argus_go.Api.Responses.{Response, bad_request, validation_error, internal_error, accepted}

-- The body of a 202, `map[string]string{…}`.
pub record EventReceipt : Type 0 where
  pub status : String
  pub dedup_key : String

-- `text` is the method `Error` of an error.
module _ {W : Type 0} (c : Codec) (s : IngestService W) (text : Error → String) where
  abbrev answer : Event → Result (Unit {0}) → Response EventReceipt
  answer event (err e) = internal_error "failed to ingest event"
  answer event (ok _) = accepted (record { status = "accepted"; dedup_key = event.dedup_key })

  abbrev submit : Event → Option Error → W → Response EventReceipt × W
  submit event (some e) w = (validation_error (text e), w)
  submit event none w = let (r, w') = ingest_event c s event w in (answer event r, w')

  -- `none` is a body that does not parse.
  unfoldable pub handle_ingest_event : Option Event → W → Response EventReceipt × W
  handle_ingest_event none w = (bad_request "invalid request body", w)
  handle_ingest_event (some event) w = submit event (validate_event event) w
