-- ===== src/Processor/Reachable.antt =====
-- The worlds that the processor of internal/processor/service.go and the API lead to.
use argus_go.Base.{ℕ, suc, List, Option, inl, inr, refl, Option-cases}
use argus_go.Base.Map.{get}
use argus_go.Domain.{InternalEvent}
use argus_go.Queue.{Message}
use argus_go.Memory.EventManagers.{MemoryEventManagerRepository}
use argus_go.Memory.GroupingRules.{MemoryGroupingRuleRepository}
use argus_go.Processor.{handle_message}
use argus_go.Processor.World.{World, Outside, service, init}
use argus_go.Processor.Kept.{Inv, Distinct}
use argus_go.Processor.Messages.{handle_event-Inv, ticked-Inv}

-- What the world does between two states: it handles a message, whether or not that fails, and the
-- API writes event managers and grouping rules, in any way.
pub data Step (o : Outside) (unmarshal : List ℕ → Option InternalEvent)
    : World → World → Type 0 where
  message :
      {w : World} (msg : Message)
      → Step o unmarshal w (handle_message (service o) unmarshal msg w).1
  administration :
      {w : World} (ems : MemoryEventManagerRepository) (rules : MemoryGroupingRuleRepository)
      → Step o unmarshal w (record w { event_managers = ems; grouping_rules = rules })
  tick : {w : World} → Step o unmarshal w (record w { ticks = suc w.ticks })

pub data Reach (o : Outside) (unmarshal : List ℕ → Option InternalEvent) : World → Type 0 where
  start : Reach o unmarshal init
  next : {w u : World} → Reach o unmarshal w → Step o unmarshal w u → Reach o unmarshal u

pub init-Inv : (o : Outside) → Inv o init
unfolding get
init-Inv o = record {
  consistent = record {
    index = record { keyed = λ k a e. cc; stored = λ k a e. cc; children = λ p k. refl };
    coherent = λ k. refl;
    fresh = λ n h. refl;
    shaped = λ k a e. absurd (cc e);
    linked = λ k a e t. cc;
    entries = λ k a e. cc;
    pending = λ k. refl;
  };
  counted = λ k a named e t. cc;
  waiting = λ k e. cc;
}

module _ (o : Outside) (unmarshal : List ℕ → Option InternalEvent) (distinct : Distinct o) where
  pub message-Inv :
      {w : World} (msg : Message) → Inv o w → Inv o (handle_message (service o) unmarshal msg w).1
  unfolding handle_message
  message-Inv {w} msg v = elim (Option-cases (unmarshal msg.value)) [
    | inl malformed ↦ rw malformed v
    | inr (event, decoded) ↦ rw decoded (handle_event-Inv o event w v distinct)
  ]

  Step-Inv : {w u : World} → Step o unmarshal w u → Inv o w → Inv o u
  Step-Inv (message msg) v = message-Inv msg v
  Step-Inv (administration ems rules) v = record {
    consistent = v.consistent;
    counted = v.counted;
    waiting = v.waiting;
  }
  Step-Inv tick v = ticked-Inv o v

  -- Where no UUID comes twice, every world that messages (handled or failed), writes of event
  -- managers and rules, and readings of the clock lead to from the empty one satisfies the
  -- invariant. The cached state of every alert agrees with the repository, and the repository's
  -- maps with each other; a child's parent is stored as a parent; a parent's count, under
  -- a key that is not empty, is the number of its children modulo 2 ^ 64; a pending resolve stands
  -- exactly for an alert whose resolution was asked for,
  -- which is an active parent with an active child.
  pub Reach-Inv : {w : World} → Reach o unmarshal w → Inv o w
  Reach-Inv start = init-Inv o
  Reach-Inv (next r st) = Step-Inv st (Reach-Inv r)
