-- ===== src/Kafka/Messages.antt =====
-- convertToKafkaMessage of mq/kafka/producer.go and convertFromKafkaMessage of mq/kafka/consumer.go.
use ais_pkg.Prelude.{◌/◌, List, [], ◌∷◌, ◌++◌, Option, some, none, ltb, is_empty, if◌then◌else◌}
use ais_pkg.Prelude.Text.{Text, codes, text_eq}
use ais_pkg.Prelude.Int.{ℤ, pos, negsuc}
use ais_pkg.Prelude.Decimal.{format_int, format_nat}
use ais_pkg.Prelude.Maps.{insert}

-- mq.Message; the properties stand in the order in which Go iterates over them.
pub record Message : Type 0 where
  pub topic : Text
  pub body : Text
  pub key : Text
  pub tag : Text
  pub properties : List (Text × Text)
  pub delay_time : ℤ

-- mq.ConsumedMessage, as far as the conversion fills it
pub record ConsumedMessage : Type 0 where
  pub topic : Text
  pub body : Text
  pub key : Text
  pub tag : Text
  pub properties : List (Text × Text)
  pub msg_id : Text
  pub offset : ℤ
  pub partition : ℤ
  pub born_time : ℤ

-- sarama.ProducerMessage and sarama.ConsumerMessage, with the fields that the package uses.
pub record ProducerMessage : Type 0 where
  pub topic : Text
  pub key : Option Text
  pub value : Text
  pub headers : List (Text × Text)
  pub timestamp : ℤ

pub record ConsumerMessage : Type 0 where
  pub topic : Text
  pub key : Option Text
  pub value : Text
  pub headers : List (Text × Text)
  pub timestamp : ℤ
  pub partition : ℤ
  pub offset : ℤ

unfoldable pub tag_header : Text
tag_header = codes "X-Tag"

unfoldable pub delay_header : Text
delay_header = codes "X-Delay-Ms"

abbrev pub key_of : Text → Option Text
key_of [] = none
key_of (c ∷ key) = some (c ∷ key)

abbrev pub tag_headers : Text → List (Text × Text)
tag_headers tag = if is_empty tag then [] else (tag_header, tag) ∷ []

-- Nanoseconds as whole milliseconds, for a delay that is positive.
abbrev pub delay_headers : ℤ → List (Text × Text)
delay_headers (negsuc n) = []
delay_headers (pos n) = if ltb 0 n then (delay_header, format_nat (n / 1000000)) ∷ [] else []

-- convertToKafkaMessage, at the time `now`
unfoldable pub convert_to_kafka_message : ℤ → Message → ProducerMessage
unfolding tag_header delay_header format_nat
convert_to_kafka_message now msg = record {
  topic = msg.topic;
  key = key_of msg.key;
  value = msg.body;
  headers = msg.properties ++ (tag_headers msg.tag ++ delay_headers msg.delay_time);
  timestamp = now;
}

abbrev pub or_empty_key : Option Text → Text
or_empty_key none = []
or_empty_key (some key) = key

-- The loop over the headers, with the tag and the properties so far.
unfoldable pub read_headers :
    List (Text × Text) → Text × List (Text × Text) → Text × List (Text × Text)
unfolding tag_header insert
read_headers [] (tag, properties) = (tag, properties)
read_headers ((key, value) ∷ headers) (tag, properties) =
    let as_tag = read_headers headers (value, properties) in
    let as_property = read_headers headers (tag, insert key value properties) in
    if text_eq key tag_header then as_tag else as_property

-- convertFromKafkaMessage
unfoldable pub convert_from_kafka_message : ConsumerMessage → ConsumedMessage
unfolding read_headers format_int
convert_from_kafka_message msg =
    let (tag, properties) = read_headers msg.headers ([], []) in
    record {
      topic = msg.topic;
      body = msg.value;
      key = or_empty_key msg.key;
      tag = tag;
      properties = properties;
      msg_id = msg.topic ++ b'-' ∷ format_int msg.partition ++ b'-' ∷ format_int msg.offset;
      offset = msg.offset;
      partition = msg.partition;
      born_time = msg.timestamp;
    }
