-- ===== src/Ingest.antt =====
-- internal/ingest/service.go. The codec of encoding/json, SHA-256 and the bytes of a text are
-- parameters. Ingest.World gives the service its stores and its queue.
pub mod World
pub mod Publishing
pub mod Delivery
pub mod Samples
mod Tests
use Prim.Native.String as Text
use argus_go.Base.{
  ℕ, ◌+◌, ◌%◌, ◌/◌, String, List, [], ◌∷◌, Option, Result, ok, err, Error, Eff, ◌>>=◌, ◌>>◌, pure,
  raise, attempt, Bool, true, false, if◌then◌else◌, is,
}
use argus_go.Base.Effect.{
  wrapped, event_manager_not_found, grouping_rule_not_found, ingest_event_manager_not_found,
  ingest_grouping_rule_not_found, publish_failed,
}
use argus_go.Base.Lists.{take, drop}
use argus_go.Base.Map
use argus_go.Base.Map.{Map}
use argus_go.Domain.{Time, Event, InternalEvent, EventManager, GroupingRule, extract_grouping_value}
use argus_go.Store.{EventManagerRepository, GroupingRuleRepository}
use argus_go.Queue.{Message, Producer}

-- What the service takes from the standard library.
pub record Codec : Type 0 where
  pub marshal : InternalEvent → Result (List ℕ)
  pub sum256 : List ℕ → List ℕ
  pub bytes : String → List ℕ

-- `hex.EncodeToString`
abbrev digits : List String
digits =
    "0" ∷ "1" ∷ "2" ∷ "3" ∷ "4" ∷ "5" ∷ "6" ∷ "7" ∷ "8" ∷ "9" ∷ "a" ∷ "b" ∷ "c" ∷ "d" ∷ "e" ∷ "f"
    ∷ []

abbrev first : List String → String
first [] = ""
first (d ∷ _) = d

unfoldable hex : List ℕ → String
hex [] = Text.[]
hex (b ∷ l) =
    Text.◌++◌ (first (drop (b / 16) digits)) (Text.◌++◌ (first (drop (b % 16) digits)) (hex l))

pub record IngestService (W : Type 0) : Type 0 where
  pub producer : Producer W
  pub event_manager_repo : EventManagerRepository W
  pub grouping_rule_repo : GroupingRuleRepository W
  pub now : Eff W Time

abbrev is_event_manager_not_found : Error → Bool
is_event_manager_not_found event_manager_not_found = true
is_event_manager_not_found _ = false

abbrev is_grouping_rule_not_found : Error → Bool
is_grouping_rule_not_found grouping_rule_not_found = true
is_grouping_rule_not_found _ = false

module _ (c : Codec) where
  unfoldable pub compute_partition_key : String → String → String
  unfolding hex
  compute_partition_key event_manager_id grouping_value =
      let input = Text.◌++◌ event_manager_id (Text.◌++◌ ":" grouping_value) in
      hex (take 8 (c.sum256 (c.bytes input)))

  -- Step 5: the event with what the service adds to it.
  abbrev pub internal_event : Event → GroupingRule → Time → InternalEvent
  internal_event event rule now =
      let grouping_value = extract_grouping_value rule event in
      record {
        event = event;
        partition_key = compute_partition_key event.event_manager_id grouping_value;
        grouping_value = grouping_value;
        received_at = now;
      }

  -- Step 6: the message that carries an event.
  abbrev pub message_of : InternalEvent → List ℕ → Message
  message_of e payload = record {
    key = c.bytes e.partition_key;
    value = payload;
    headers =
        Map.put
          (Map.put (Map.put Map.empty "event_manager_id" e.event_manager_id) "action" e.action)
          "dedupKey" e.dedup_key;
  }

  module _ {W : Type 0} (s : IngestService W) where
    -- Steps 1 and 2: a missing entry becomes the service's own error, another error is wrapped.
    abbrev manager_or_fail : Result EventManager → Eff W EventManager
    manager_or_fail (ok em) = pure em
    manager_or_fail (err e) =
        if is is_event_manager_not_found e
        then raise ingest_event_manager_not_found
        else raise (wrapped "failed to fetch event manager" e)

    abbrev rule_or_fail : Result GroupingRule → Eff W GroupingRule
    rule_or_fail (ok rule) = pure rule
    rule_or_fail (err e) =
        if is is_grouping_rule_not_found e
        then raise ingest_grouping_rule_not_found
        else raise (wrapped "failed to fetch grouping rule" e)

    abbrev payload_or_fail : Result (List ℕ) → Eff W (List ℕ)
    payload_or_fail (ok payload) = pure payload
    payload_or_fail (err e) = raise (wrapped "failed to serialize event" e)

    abbrev published_or_fail : Result (Unit {0}) → Eff W Unit
    published_or_fail (ok _) = pure tt
    published_or_fail (err e) = raise publish_failed

    unfoldable pub ingest_event : Event → Eff W Unit
    ingest_event event = do
      fetched ← attempt (s.event_manager_repo.get_by_id event.event_manager_id)
      em ← manager_or_fail fetched
      looked_up ← attempt (s.grouping_rule_repo.get_by_id em.grouping_rule_id)
      rule ← rule_or_fail looked_up
      now ← s.now
      let e = internal_event event rule now
      payload ← payload_or_fail (c.marshal e)
      answer ← attempt (s.producer.publish (message_of e payload))
      published_or_fail answer
