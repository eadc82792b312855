-- ===== src/Kafka/Carrying.antt =====
-- A message of mq/kafka comes out as it went in.
use ais_pkg.Prelude.{
  ◌≡◌, refl, ap, ◌∙◌, Bool, true, false, List, [], ◌∷◌, ◌++◌, Option, some, none, if◌then◌else◌,
}
use ais_pkg.Prelude.Text.{Text, text_eq, text_eq→eq, text_eq_refl}
use ais_pkg.Prelude.Int.{ℤ, pos}
use ais_pkg.Prelude.Maps.{lookup, insert, lookup-insert}
use ais_pkg.Kafka.Messages.{
  Message, ProducerMessage, ConsumerMessage, tag_header, key_of, tag_headers, delay_headers,
  convert_to_kafka_message, or_empty_key, read_headers, convert_from_kafka_message,
}

-- What a broker hands on of a message that it stored at an offset of a partition.
abbrev pub carried : ℤ → ℤ → ProducerMessage → ConsumerMessage
carried partition offset msg = record {
  topic = msg.topic;
  key = msg.key;
  value = msg.value;
  headers = msg.headers;
  timestamp = msg.timestamp;
  partition = partition;
  offset = offset;
}

-- The keys of a map, which are different, and none of them is the header of the tag.
abbrev pub OwnKeys : List (Text × Text) → Type 0
OwnKeys [] = Unit {0}
OwnKeys ((k, v) ∷ m) = (text_eq k tag_header ≡ false) × (lookup k m ≡ none) × OwnKeys m

fill : List (Text × Text) → List (Text × Text) → List (Text × Text)
fill [] acc = acc
fill ((k, v) ∷ m) acc = fill m (insert k v acc)

abbrev or_else : Option Text → Option Text → Option Text
or_else none o = o
or_else (some v) o = some v

or_else_if :
    (b : Bool) (v : Text) (rest old : Option Text)
    → (b ≡ true → rest ≡ none)
    → or_else rest (if b then some v else old) ≡ or_else (if b then some v else rest) old
or_else_if true v rest old h = rw (h refl) refl
or_else_if false v rest old h = refl

lookup-fill :
    (k : Text) (m acc : List (Text × Text))
    → OwnKeys m
    → lookup k (fill m acc) ≡ or_else (lookup k m) (lookup k acc)
unfolding fill lookup insert
lookup-fill k [] acc own = refl
lookup-fill k ((j, v) ∷ m) acc own =
    lookup-fill k m (insert j v acc) own.2
    ∙ ap (or_else (lookup k m)) (lookup-insert j k v acc)
    ∙ or_else_if (text_eq j k) v (lookup k m) (lookup k acc) (λ e. rw (← text_eq→eq j k e) own.1)

read_properties :
    (m more : List (Text × Text)) (tag : Text) (acc : List (Text × Text))
    → OwnKeys m
    → read_headers (m ++ more) (tag, acc) ≡ read_headers more (tag, fill m acc)
unfolding read_headers fill
read_properties [] more tag acc own = refl
read_properties ((k, v) ∷ m) more tag acc own =
    rw own.0 (read_properties m more tag (insert k v acc) own.2)

read_tag :
    (tag : Text) (acc : List (Text × Text))
    → read_headers (tag_headers tag ++ []) ([], acc) ≡ (tag, acc)
unfolding read_headers
read_tag [] acc = refl
read_tag (c ∷ tag) acc = rw (text_eq_refl tag_header) refl

key_back : (key : Text) → or_empty_key (key_of key) ≡ key
key_back [] = refl
key_back (c ∷ key) = refl

or_else-none : (o : Option Text) → or_else o none ≡ o
or_else-none none = refl
or_else-none (some v) = refl

module _ (now partition offset : ℤ) (m : Message) (own : OwnKeys m.properties)
    (at_once : m.delay_time ≡ pos 0) where
  headers_read :
      read_headers (convert_to_kafka_message now m).headers ([], []) ≡ (m.tag, fill m.properties [])
  unfolding convert_to_kafka_message
  headers_read =
      read_properties m.properties (tag_headers m.tag ++ delay_headers m.delay_time) [] [] own
      ∙ ap (λ d. read_headers (tag_headers m.tag ++ delay_headers d) ([], fill m.properties []))
          at_once
      ∙ read_tag m.tag (fill m.properties [])

-- A message without a delay whose property names differ from each other and from X-Tag comes back
-- from Kafka with its topic, its body, its key, its tag and its properties, wherever the broker
-- stored it.
pub convert_from-convert_to :
    (now partition offset : ℤ) (m : Message) (k : Text)
    → OwnKeys m.properties
    → m.delay_time ≡ pos 0
    → ((convert_from_kafka_message
          (carried partition offset (convert_to_kafka_message now m))).topic
        ≡ m.topic)
      × ((convert_from_kafka_message
            (carried partition offset (convert_to_kafka_message now m))).body
          ≡ m.body)
      × ((convert_from_kafka_message
            (carried partition offset (convert_to_kafka_message now m))).key
          ≡ m.key)
      × ((convert_from_kafka_message
            (carried partition offset (convert_to_kafka_message now m))).tag
          ≡ m.tag)
      × (lookup k
            (convert_from_kafka_message
              (carried partition offset (convert_to_kafka_message now m))).properties
          ≡ lookup k m.properties)
unfolding convert_from_kafka_message convert_to_kafka_message lookup
convert_from-convert_to now partition offset m k own at_once =
    let read = headers_read now partition offset m own at_once in
    (
      refl,
      refl,
      key_back m.key,
      ap (λ r. r.0) read,
      ap (λ r. lookup k r.1) read
          ∙ lookup-fill k m.properties [] own
          ∙ or_else-none (lookup k m.properties),
    )
