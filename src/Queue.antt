-- ===== src/Queue.antt =====
-- internal/queue/queue.go: messages, whose keys and payloads are bytes, and the interfaces of
-- producers and consumers. A consumer's `Start` that never returns has no result.
pub mod Memory
pub mod Kafka
use argus_go.Base.{ℕ, String, List, Option, Eff, Result}
use argus_go.Base.Map.{Map}

pub record Message : Type 0 where
  pub key : List ℕ
  pub value : List ℕ
  pub headers : Map String

pub record Producer (W : Type 0) : Type 0 where
  pub publish : Message → Eff W Unit
  pub close : Eff W Unit

-- `MessageHandler`
abbrev pub MessageHandler : Type 0 → Type 0
MessageHandler W = Message → Eff W Unit

pub record Consumer (W : Type 0) : Type 0 where
  pub start : MessageHandler W → W → Option (Result (Unit {0}) × W)
  pub close : Eff W Unit
