-- ===== src/Queue/Kafka.antt =====
-- internal/queue/kafka/producer.go and consumer.go. The writer and the reader of kafka-go, the
-- context and Go's conversions between strings and bytes are parameters. What the calls of one round
-- of `Start` return is an `Outcome`, so a run is a list of them.
pub mod Headers
pub mod Order
pub mod Connection
mod Tests
use argus_go.Base.{
  ℕ, String, Option, none, some, List, [], ◌∷◌, ◌++◌, Result, ok, err, Error, Eff, ◌>>=◌, pure,
  attempt, raise,
}
use argus_go.Base.Effect.{wrapped}
use argus_go.Base.Map
use argus_go.Base.Map.{Map}
use argus_go.Queue.{Message, MessageHandler}

-- `kafka.Header`
pub record Header : Type 0 where
  pub key : String
  pub value : List ℕ

-- `kafka.Message`, whose partition and offset are set where it was read.
pub record KafkaMessage : Type 0 where
  pub key : List ℕ
  pub value : List ℕ
  pub headers : List Header
  pub partition : ℕ
  pub offset : ℕ

-- `[]byte(s)` and `string(b)`
pub record Conversions : Type 0 where
  pub bytes : String → List ℕ
  pub text : List ℕ → String

module _ (go : Conversions) where
  -- The loop over the headers, in the order in which Go ranges over them.
  unfoldable pub header_list : Map String → List Header
  header_list [] = []
  header_list ((k, v) ∷ l) = record { key = k; value = go.bytes v } ∷ header_list l

  -- `kafkaMsg` of `Publish`
  abbrev pub outgoing : (Map String → Map String) → Message → KafkaMessage
  outgoing order msg = record {
    key = msg.key;
    value = msg.value;
    headers = header_list (order msg.headers);
    partition = 0;
    offset = 0;
  }

  -- What `Publish` makes of the answer of the writer.
  abbrev written : {W : Type 0} → Result (Unit {0}) → Eff W Unit
  written (ok a) = pure tt
  written (err e) = raise (wrapped "failed to write message to kafka" e)

  unfoldable pub publish :
      {W : Type 0} → (KafkaMessage → Eff W Unit) → (Map String → Map String) → Message → Eff W Unit
  publish write_messages order msg = do
    answer ← attempt (write_messages (outgoing order msg))
    written answer

  -- The loop over `msg.Headers` of `Start`, from the map that it has built so far.
  unfoldable pub read_headers : List Header → Map String → Map String
  read_headers [] m = m
  read_headers (h ∷ hs) m = read_headers hs (Map.put m h.key (go.text h.value))

  -- `queueMsg` of `Start`
  unfoldable pub incoming : KafkaMessage → Message
  incoming msg = record {
    key = msg.key;
    value = msg.value;
    headers = read_headers msg.headers Map.empty;
  }

-- What one round finds: the context is done; or `FetchMessage` fails, and then the context has an
-- error or not; or it gives a message, which `CommitMessages` would answer with the result.
pub data Outcome : Type 0 where
  done : Error → Outcome
  not_fetched : Error → Option Error → Outcome
  fetched : KafkaMessage → Result (Unit {0}) → Outcome

-- The world that the handler works on, and the messages that were given to `CommitMessages` and
-- that it committed.
pub record Loop (W : Type 0) : Type 0 where
  pub world : W
  pub committed : List KafkaMessage

module _ {W : Type 0} (go : Conversions) (handler : MessageHandler W) where
  abbrev after_commit :
      KafkaMessage → Result (Unit {0}) → Loop W → Option (Result (Unit {0})) × Loop W
  after_commit msg (ok a) s = (none, record s { committed = s.committed ++ msg ∷ [] })
  after_commit msg (err e) s = (some (err (wrapped "failed to commit message" e)), s)

  abbrev pub after_handler :
      KafkaMessage
      → Result (Unit {0})
      → Result (Unit {0})
      → Loop W
      → Option (Result (Unit {0})) × Loop W
  after_handler msg answer (err e) s = (none, s)
  after_handler msg answer (ok a) s = after_commit msg answer s

  -- One round of the loop: what `Start` returns, if it does.
  abbrev pub round : Outcome → Loop W → Option (Result (Unit {0})) × Loop W
  round (done e) s = (some (err e), s)
  round (not_fetched e (some cancelled)) s = (some (err cancelled), s)
  round (not_fetched e none) s = (none, s)
  round (fetched msg answer) s =
      after_handler msg answer (handler (incoming go msg) s.world).0
        (record s { world = (handler (incoming go msg) s.world).1 })

  -- The loop goes on where the round does not return.
  abbrev pub or_next :
      Option (Result (Unit {0})) × Loop W
      → Option (Result (Unit {0})) × Loop W
      → Option (Result (Unit {0})) × Loop W
  or_next (some r, s) rest = (some r, s)
  or_next (none, s) rest = rest

  -- `Start`: what it has returned after these rounds, with `none` where it is still going.
  unfoldable pub start : List Outcome → Loop W → Option (Result (Unit {0})) × Loop W
  start [] s = (none, s)
  start (x ∷ xs) s = let rest = start xs (round x s).1 in or_next (round x s) rest
