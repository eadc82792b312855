-- ===== src/Tests/Kafka.antt =====
-- mq/kafka: a message with a tag and a property, and one call of SendSync.
use ais_pkg.Prelude.{◌≡◌, ◌⊎◌, inl, refl, true, false, [], ◌∷◌, some, none, ok, err}
use ais_pkg.Prelude.Text.{Text, codes, text_eq}
use ais_pkg.Prelude.Int.{pos}
use ais_pkg.Prelude.Maps.{lookup}
use ais_pkg.Kafka.Messages.{
  Message, tag_header, convert_to_kafka_message, convert_from_kafka_message,
}
use ais_pkg.Kafka.Carrying.{carried, OwnKeys, convert_from-convert_to}
use ais_pkg.Kafka.Settings.{SaslConfig, TlsConfig, TlsFiles, consumer_security, unset}
use ais_pkg.Kafka.Producer.{
  Outcome, Event, failure, outcome_of, Look, deliver_sync_send_result, sync_send, set, handle_event,
  producer_closed, answered, send_sync,
}
use ais_pkg.Kafka.Interleaving.{
  checked, waiting, returned, Sent, System, begins, takes, tells, receives, start, Reachable, new,
  after,
}
use ais_pkg.Kafka.Delivery.{Told}
use ais_pkg.Kafka.Sends.{send_sync-own_result}

abbrev property : Text
property = b'p' ∷ []

abbrev message : Message
message = record {
  topic = b't' ∷ [];
  body = b'b' ∷ [];
  key = [];
  tag = b'g' ∷ [];
  properties = (property, b'v' ∷ []) ∷ [];
  delay_time = pos 0;
}

own_keys : OwnKeys message.properties
unfolding lookup text_eq tag_header codes
own_keys = (refl, refl, tt)

convert_from-convert_to_example :
    ((convert_from_kafka_message
        (carried (pos 1) (pos 2) (convert_to_kafka_message (pos 9) message))).topic
      ≡ message.topic)
    × ((convert_from_kafka_message
          (carried (pos 1) (pos 2) (convert_to_kafka_message (pos 9) message))).body
        ≡ message.body)
    × ((convert_from_kafka_message
          (carried (pos 1) (pos 2) (convert_to_kafka_message (pos 9) message))).key
        ≡ message.key)
    × ((convert_from_kafka_message
          (carried (pos 1) (pos 2) (convert_to_kafka_message (pos 9) message))).tag
        ≡ message.tag)
    × (lookup property
          (convert_from_kafka_message
            (carried (pos 1) (pos 2) (convert_to_kafka_message (pos 9) message))).properties
        ≡ lookup property message.properties)
convert_from-convert_to_example =
    convert_from-convert_to (pos 9) (pos 1) (pos 2) message property own_keys refl

abbrev sasl : SaslConfig
sasl = record { enable = true; username = []; password = []; mechanism = b'X' ∷ [] }

abbrev tls : TlsConfig
tls = record { enable = false; ca_file = []; cert_file = []; key_file = []; insecure = false }

abbrev no_files : TlsFiles Text Text
no_files = record { read_file = λ f. err f; pool_of = λ p. none; load_pair = λ c k. err c }

-- The producer refuses a mechanism that the consumer takes as none at all.
mechanism_taken :
    consumer_security no_files sasl tls
    ≡ ok (record { enable = true; user = []; password = []; mechanism = unset }, none)
unfolding consumer_security text_eq codes
mechanism_taken = refl

abbrev refused : Event
refused = failure (b'e' ∷ [])

abbrev undisturbed : Look
undisturbed = record { done_first = false; done_then = false; takes_done = false }

abbrev asked : System
asked = record start { phase = set 0 checked start.phase }

abbrev first_message : Sent
first_message = record { sender = 0; metadata = sync_send 0 }

abbrev given : System
given = record asked {
  phase = set 0 (waiting 0) asked.phase;
  channels = set 0 none asked.channels;
  next = 1;
  sent = first_message ∷ [];
}

abbrev answered_system : System
answered_system = record given {
  channels = (handle_event undisturbed given.channels (sync_send 0) refused).0;
  told = (first_message, refused) ∷ [];
}

abbrev at_end : System
at_end = record answered_system {
  phase = set 0 (returned (send_sync false (answered (err (b'e' ∷ []))))) answered_system.phase;
  channels = set 0 none answered_system.channels;
}

in_channel : answered_system.channels 0 ≡ some (err (b'e' ∷ []))
unfolding handle_event deliver_sync_send_result outcome_of
in_channel = refl

reached : Reachable at_end
reached =
    after
      (after (after (after new (begins 0 refl)) (takes 0 refl))
        (tells first_message undisturbed refused (inl refl)))
      (receives 0 0 (err (b'e' ∷ [])) refl in_channel)

returned_refused : at_end.phase 0 ≡ returned (err (b'e' ∷ []))
unfolding send_sync
returned_refused = refl

send_sync-own_result_example :
    (Path Outcome (err (b'e' ∷ [])) (err producer_closed))
    ⊎ Told at_end.told (λ m. m.sender ≡ 0) (err (b'e' ∷ []))
send_sync-own_result_example =
    send_sync-own_result at_end 0 (err (b'e' ∷ [])) reached returned_refused
