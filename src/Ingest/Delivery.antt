-- ===== src/Ingest/Delivery.antt =====
-- From the ingest service to the processor: what a published message carries.
use argus_go.Base.{ℕ, Option, some, List, [], ◌∷◌, ◌++◌, ◌≡◌, refl, Result, ok}
use argus_go.Domain.{Event, InternalEvent, GroupingRule}
use argus_go.Queue.{Message}
use argus_go.Processor.{handle_message, handle_event}
use argus_go.Processor.World.{World, Outside, service}
use argus_go.Ingest.{Codec, ingest_event, message_of}
use argus_go.Ingest.World.{System, ingest_service}
use argus_go.Ingest.Publishing.{
  Routed, Enriches, Ingested, published, no_manager, no_rule, not_encoded, not_accepted,
  ingest_event-Ingested,
}

-- `json.Unmarshal` reads back what `json.Marshal` wrote.
abbrev pub RoundTrips : Codec → (List ℕ → Option InternalEvent) → Type 0
RoundTrips c unmarshal =
    (e : InternalEvent) (l : List ℕ) → c.marshal e ≡ ok l → unmarshal l ≡ some e

module _ (o : Outside) (c : Codec) (unmarshal : List ℕ → Option InternalEvent) (event : Event)
    (s : System) where
  -- The message is the last one in the queue, and the processor handles in it the event that the
  -- service received, with the value that the manager's rule groups it by.
  abbrev pub Delivers : System → Type 0
  Delivers t =
      (rule : GroupingRule) × (msg : Message) × (e : InternalEvent) × Routed s event rule
      × Enriches c event rule (o.clock s.world.ticks) e
      × (t.queue.messages ≡ s.queue.messages ++ msg ∷ [])
      × ((w : World) → handle_message (service o) unmarshal msg w ≡ handle_event (service o) e w)

  Ingested-Delivers :
      {x : Result (Unit {0}) × System}
      → RoundTrips c unmarshal
      → Ingested o c event s x
      → x.0 ≡ ok tt
      → Delivers x.1
  unfolding handle_message
  Ingested-Delivers reads (published rule x payload routed enriches encodes not_closed fits alive)
        e =
      (
        rule,
        message_of c x payload,
        x,
        routed,
        enriches,
        refl,
        λ w. rw (reads x payload encodes) refl,
      )
  Ingested-Delivers reads (no_manager missing) e = absurd (cc e)
  Ingested-Delivers reads (no_rule em known missing) e = absurd (cc e)
  Ingested-Delivers reads (not_encoded rule x f routed enriches fails) e = absurd (cc e)
  Ingested-Delivers reads (not_accepted rule routed full) e = absurd (cc e)

  -- Where decoding reads back what encoding wrote: an event that IngestEvent accepts is the last
  -- message in the queue, and in every world handling that message is handling an internal event whose
  -- event is the accepted one, unchanged, and whose grouping value is the event's class, severity or
  -- manager, or the empty text, by the grouping key of its manager's rule.
  pub ingest_event-Delivers :
      RoundTrips c unmarshal
      → (ingest_event c (ingest_service o) event s).0 ≡ ok tt
      → Delivers (ingest_event c (ingest_service o) event s).1
  ingest_event-Delivers reads = Ingested-Delivers reads (ingest_event-Ingested o c event s)
