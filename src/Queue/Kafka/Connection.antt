-- ===== src/Queue/Kafka/Connection.antt =====
-- How internal/queue/kafka/producer.go and consumer.go get the writer and the reader of kafka-go, and
-- how they close them. Making and closing them are parameters.
use argus_go.Base.{ℕ, String, Bool, true, Option, none, some, List, Eff, pure}
use argus_go.Base.Int.{pos}
use argus_go.Domain.{Duration}
use argus_go.Config.{KafkaConfig}

-- The fields of `kafka.Writer` that `NewProducer` sets.
pub record WriterConfig : Type 0 where
  pub addr : List String
  pub topic : String
  pub hash_balancer : Bool
  pub batch_timeout : Duration
  pub require_one : Bool

-- `kafka.ReaderConfig`
pub record ReaderConfig : Type 0 where
  pub brokers : List String
  pub topic : String
  pub group_id : String
  pub min_bytes : ℕ
  pub max_bytes : ℕ

-- What kafka-go does for a writer `T` and a reader `R`.
pub record Dialer (T R W : Type 0) : Type 0 where
  pub new_writer : WriterConfig → W → T × W
  pub close_writer : T → Eff W Unit
  pub new_reader : ReaderConfig → W → R × W
  pub close_reader : R → Eff W Unit

-- The pointers `writer` and `reader`, which may be nil.
pub record KafkaProducer (T : Type 0) : Type 0 where
  pub writer : Option T

pub record KafkaConsumer (R : Type 0) : Type 0 where
  pub reader : Option R

abbrev pub writer_config : KafkaConfig → WriterConfig
writer_config cfg = record {
  addr = cfg.brokers;
  topic = cfg.topic;
  hash_balancer = true;
  batch_timeout = pos 10_000_000;
  require_one = true;
}

abbrev pub reader_config : KafkaConfig → ReaderConfig
reader_config cfg = record {
  brokers = cfg.brokers;
  topic = cfg.topic;
  group_id = cfg.consumer_group;
  min_bytes = 1;
  max_bytes = 10_000_000;
}

module _ {T R W : Type 0} (dialer : Dialer T R W) where
  unfoldable pub new_producer : KafkaConfig → W → KafkaProducer T × W
  new_producer cfg w =
      let (writer, w') = dialer.new_writer (writer_config cfg) w in
      (record { writer = some writer }, w')

  abbrev close_if_made : Option T → Eff W Unit
  close_if_made none = pure tt
  close_if_made (some writer) = dialer.close_writer writer

  -- `Producer.Close`
  unfoldable pub close_producer : KafkaProducer T → Eff W Unit
  close_producer p = close_if_made p.writer

  unfoldable pub new_consumer : KafkaConfig → W → KafkaConsumer R × W
  new_consumer cfg w =
      let (reader, w') = dialer.new_reader (reader_config cfg) w in
      (record { reader = some reader }, w')

  abbrev close_if_open : Option R → Eff W Unit
  close_if_open none = pure tt
  close_if_open (some reader) = dialer.close_reader reader

  -- `Consumer.Close`
  unfoldable pub close_consumer : KafkaConsumer R → Eff W Unit
  close_consumer c = close_if_open c.reader
