-- ===== src/Api/Accepted.antt =====
-- What the status of `POST /v1/events` says, in memory mode.
use argus_go.Base.{
  ℕ, String, Option, none, some, List, ◌≡◌, ◌≢◌, inl, inr, refl, arith, Result, err, Error,
  Option-cases, Result-cases,
}
use argus_go.Domain.{Event, InternalEvent, validate_event}
use argus_go.Domain.Validation.{WellFormed, validate_event-none_iff}
use argus_go.Processor.World.{Outside}
use argus_go.Ingest.{Codec, ingest_event}
use argus_go.Ingest.World.{System, ingest_service}
use argus_go.Ingest.Publishing.{
  Ingested, published, no_manager, no_rule, not_encoded, not_accepted, ingest_event-Ingested,
}
use argus_go.Ingest.Delivery.{RoundTrips, Delivers, ingest_event-Delivers}
use argus_go.Api.Events.{handle_ingest_event}

module _ (o : Outside) (c : Codec) (text : Error → String) (s : System) where
  Ingested-failed :
      (event : Event) {x : Result (Unit {0}) × System} (e : Error)
      → Ingested o c event s x
      → x.0 ≡ err e
      → x.1.queue ≡ s.queue
  Ingested-failed event e (published rule x payload routed enriches encodes not_closed fits alive)
        h =
      absurd (cc h)
  Ingested-failed event e (no_manager missing) h = refl
  Ingested-failed event e (no_rule em known missing) h = refl
  Ingested-failed event e (not_encoded rule x f routed enriches fails) h = refl
  Ingested-failed event e (not_accepted rule routed full) h = refl

  -- The handler of POST /v1/events leaves the queue as it was unless it answers 202.
  pub handle_ingest_event-refused :
      (body : Option Event)
      → (handle_ingest_event c (ingest_service o) text body s).0.status ≢ 202
      → (handle_ingest_event c (ingest_service o) text body s).1.queue ≡ s.queue
  unfolding handle_ingest_event
  handle_ingest_event-refused none h = refl
  handle_ingest_event-refused (some event) h = elim (Option-cases (validate_event event)) [
    | inr (e, invalid) ↦ rw invalid refl
    | inl valid ↦ elim (Result-cases (ingest_event c (ingest_service o) event s).0) [
      | inl (u, done) ↦ absurd (h (rw valid (rw done refl)))
      | inr (e, failed) ↦
          rw valid (Ingested-failed event e (ingest_event-Ingested o c event s) failed)
    ]
  ]

  -- Where decoding reads back what encoding wrote: an event that the handler of POST /v1/events
  -- answers with 202 passes validation and is the last message in the queue, and in every world
  -- handling that message is handling an internal event whose event is the accepted one, unchanged, and
  -- whose grouping value is the one that its manager's rule has for it.
  pub handle_ingest_event-accepted :
      (unmarshal : List ℕ → Option InternalEvent) (event : Event)
      → RoundTrips c unmarshal
      → (handle_ingest_event c (ingest_service o) text (some event) s).0.status ≡ 202
      → WellFormed event
        × Delivers o c unmarshal event s
            (handle_ingest_event c (ingest_service o) text (some event) s).1
  unfolding handle_ingest_event
  handle_ingest_event-accepted unmarshal event reads h =
      elim (Option-cases (validate_event event)) [
        | inr (e, invalid) ↦ absurd (omega (arith, rw invalid at h))
        | inl valid ↦ elim (Result-cases (ingest_event c (ingest_service o) event s).0) [
          | inl (u, done) ↦ (
            (validate_event-none_iff event).0 valid,
            rw valid (ingest_event-Delivers o c unmarshal event s reads done),
          )
          | inr (e, failed) ↦ absurd (omega (arith, rw failed at (rw valid at h)))
        ]
      ]
