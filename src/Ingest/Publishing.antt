-- ===== src/Ingest/Publishing.antt =====
-- What IngestEvent of internal/ingest/service.go does in memory mode, on every branch.
use argus_go.Base.{
  ℕ, suc, String, ◌<◌, ◌≤◌, ◌≢◌, eq_iff, Bool-cases, ◌==◌, Bool, true, false, none, some, List, [],
  ◌∷◌, ◌++◌, ◌≡◌, ◌⊎◌, inl, inr, refl, arith, Result, ok, err, Error, Option-cases, Result-cases,
  if◌then◌else◌, ltb,
}
use argus_go.Base.Effect.{
  wrapped, ingest_event_manager_not_found, ingest_grouping_rule_not_found, publish_failed,
}
use argus_go.Base.Lists.{length}
use argus_go.Base.Map.{get}
use argus_go.Domain.{Time, Event, InternalEvent, EventManager, GroupingRule, extract_grouping_value}
use argus_go.Memory.EventManagers
use argus_go.Memory.GroupingRules
use argus_go.Queue.{Message}
use argus_go.Queue.Memory.{send}
use argus_go.Processor.World.{Outside}
use argus_go.Ingest.{Codec, ingest_event, internal_event, message_of, compute_partition_key}
use argus_go.Ingest.World.{System, ingest_service}

-- The system after the service has read the clock.
abbrev pub received : System → System
received s = record s { world = record s.world { ticks = suc s.world.ticks } }

abbrev pub queued : Message → System → System
queued msg s = record s { queue = record s.queue { messages = s.queue.messages ++ msg ∷ [] } }

-- The event manager of an event, and that one's rule, as the repositories have them.
pub record Routed (s : System) (event : Event) (rule : GroupingRule) : Type 0 where
  pub manager : EventManager
  pub its_manager : get s.world.event_managers.event_managers event.event_manager_id ≡ some manager
  pub its_rule : get s.world.grouping_rules.grouping_rules manager.grouping_rule_id ≡ some rule

-- The value by which a rule with the given key groups an event.
pub data Groups (key : String) (event : Event) : String → Type 0 where
  by_class : key ≡ "class" → Groups key event event.class
  by_severity : key ≡ "severity" → Groups key event event.severity
  by_manager : key ≡ "event_manager_id" → Groups key event event.event_manager_id
  by_nothing : key ≢ "class" → key ≢ "severity" → key ≢ "event_manager_id" → Groups key event ""

-- What the service makes of an event: the event itself, the value that the rule groups it by, a partition
-- key for its manager and that value, and the time.
pub record Enriches (c : Codec) (event : Event) (rule : GroupingRule) (now : Time)
    (e : InternalEvent) : Type 0 where
  pub its_event : e.event ≡ event
  pub its_value : Groups rule.grouping_key event e.grouping_value
  pub its_key : e.partition_key ≡ compute_partition_key c event.event_manager_id e.grouping_value
  pub its_time : e.received_at ≡ now

extract_grouping_value-Groups :
    (rule : GroupingRule) (event : Event)
    → Groups rule.grouping_key event (extract_grouping_value rule event)
unfolding extract_grouping_value
extract_grouping_value-Groups rule event = elim (Bool-cases (rule.grouping_key == "class")) [
  | inl class ↦ rw class (by_class ((eq_iff _ _).0 class))
  | inr no_class ↦ elim (Bool-cases (rule.grouping_key == "severity")) [
    | inl severity ↦ rw (no_class, severity) (by_severity ((eq_iff _ _).0 severity))
    | inr no_severity ↦ elim (Bool-cases (rule.grouping_key == "event_manager_id")) [
      | inl manager ↦ rw (no_class, no_severity, manager) (by_manager ((eq_iff _ _).0 manager))
      | inr other ↦
          rw (no_class, no_severity, other)
            (by_nothing (λ e. ground (arith, eq_iff rule.grouping_key "class"))
              (λ e. ground (arith, eq_iff rule.grouping_key "severity"))
              (λ e. ground (arith, eq_iff rule.grouping_key "event_manager_id")))
    ]
  ]
]

module _ (o : Outside) (c : Codec) (event : Event) (s : System) where
  abbrev enriched : GroupingRule → InternalEvent
  enriched rule = internal_event c event rule (o.clock s.world.ticks)

  enriched-Enriches :
      (rule : GroupingRule) → Enriches c event rule (o.clock s.world.ticks) (enriched rule)
  enriched-Enriches rule = record {
    its_event = refl;
    its_value = extract_grouping_value-Groups rule event;
    its_key = refl;
    its_time = refl;
  }

  pub data Ingested : Result (Unit {0}) × System → Type 0 where
    published :
        (rule : GroupingRule) (e : InternalEvent) (payload : List ℕ)
        → Routed s event rule
        → Enriches c event rule (o.clock s.world.ticks) e
        → c.marshal e ≡ ok payload
        → s.queue.closed ≡ false
        → length s.queue.messages < s.queue.capacity
        → s.request.done ≡ false
        → Ingested (ok tt, queued (message_of c e payload) (received s))
    no_manager :
        get s.world.event_managers.event_managers event.event_manager_id ≡ none
        → Ingested (err ingest_event_manager_not_found, s)
    no_rule :
        (em : EventManager)
        → get s.world.event_managers.event_managers event.event_manager_id ≡ some em
        → get s.world.grouping_rules.grouping_rules em.grouping_rule_id ≡ none
        → Ingested (err ingest_grouping_rule_not_found, s)
    not_encoded :
        (rule : GroupingRule) (e : InternalEvent) (x : Error)
        → Routed s event rule
        → Enriches c event rule (o.clock s.world.ticks) e
        → c.marshal e ≡ err x
        → Ingested (err (wrapped "failed to serialize event" x), received s)
    not_accepted :
        (rule : GroupingRule)
        → Routed s event rule
        → (s.queue.closed ≡ true)
          ⊎ (s.request.done ≡ true)
          ⊎ (s.queue.capacity ≤ length s.queue.messages)
        → Ingested (err publish_failed, received s)

  -- What the queue makes of the message.
  abbrev answered : Bool → Bool → Bool → GroupingRule → List ℕ → Result (Unit {0}) × System
  answered is_closed done fits rule payload =
      if is_closed
      then (err publish_failed, received s)
      else if done
      then (err publish_failed, received s)
      else if fits
      then (ok tt, queued (message_of c (enriched rule) payload) (received s))
      else (err publish_failed, received s)

  answered-Ingested :
      (is_closed done fits : Bool) (rule : GroupingRule) (payload : List ℕ)
      → Routed s event rule
      → c.marshal (enriched rule) ≡ ok payload
      → s.queue.closed ≡ is_closed
      → s.request.done ≡ done
      → ltb (length s.queue.messages) s.queue.capacity ≡ fits
      → Ingested (answered is_closed done fits rule payload)
  answered-Ingested true done fits rule payload r encodes closes d e =
      not_accepted rule r (inl closes)
  answered-Ingested false true fits rule payload r encodes closes d e =
      not_accepted rule r (inr (inl d))
  answered-Ingested false false true rule payload r encodes closes d e =
      published rule _ payload r (enriched-Enriches rule) encodes closes (ground (arith, e)) d
  answered-Ingested false false false rule payload r encodes closes d e =
      not_accepted rule r (inr (inr (ground (arith, e))))

  encoded-run :
      (rule : GroupingRule) (payload : List ℕ)
      → Routed s event rule
      → c.marshal (enriched rule) ≡ ok payload
      → ingest_event c (ingest_service o) event s
        ≡ answered s.queue.closed s.request.done
            (ltb (length s.queue.messages) s.queue.capacity)
            rule
            payload
  unfolding ingest_event EventManagers.get_by_id GroupingRules.get_by_id send
  encoded-run rule payload r encodes = ground (arith, r.its_manager, r.its_rule, encodes)

  fails-run :
      (rule : GroupingRule) (e : Error)
      → Routed s event rule
      → c.marshal (enriched rule) ≡ err e
      → ingest_event c (ingest_service o) event s
        ≡ (err (wrapped "failed to serialize event" e), received s)
  unfolding ingest_event EventManagers.get_by_id GroupingRules.get_by_id
  fails-run rule e r fails = ground (arith, r.its_manager, r.its_rule, fails)

  -- Once manager and rule are known.
  routed-Ingested :
      (rule : GroupingRule)
      → Routed s event rule
      → Ingested (ingest_event c (ingest_service o) event s)
  routed-Ingested rule r = elim (Result-cases (c.marshal (enriched rule))) [
    | inr (e, fails) ↦
        rw (fails-run rule e r fails) (not_encoded rule _ e r (enriched-Enriches rule) fails)
    | inl (payload, encodes) ↦
        rw (encoded-run rule payload r encodes)
          (answered-Ingested _ _ _ rule payload r encodes refl refl refl)
  ]

  -- In memory mode, with the queue to itself, IngestEvent returns no error only where the event's manager
  -- and its rule exist, the event with the rule's grouping value can be encoded, the queue is open and not
  -- full and the context is not done, and then puts the one message for that event at the end of the
  -- queue. On each of the other branches it returns that branch's error and leaves the queue as it was:
  -- a missing manager, a missing rule, an event that cannot be encoded, and a queue that is closed or
  -- full or a context that is done. On a full queue it returns that error once its context has ended.
  pub ingest_event-Ingested : Ingested (ingest_event c (ingest_service o) event s)
  unfolding ingest_event EventManagers.get_by_id GroupingRules.get_by_id
  ingest_event-Ingested =
      elim (Option-cases (get s.world.event_managers.event_managers event.event_manager_id)) [
        | inl missing ↦ rw missing (no_manager missing)
        | inr (em, has_em) ↦
            elim (Option-cases (get s.world.grouping_rules.grouping_rules em.grouping_rule_id)) [
              | inl missing ↦ rw has_em (rw missing (no_rule em has_em missing))
              | inr (rule, has_rule) ↦
                  routed-Ingested rule
                    (record { manager = em; its_manager = has_em; its_rule = has_rule })
            ]
      ]
