-- ===== src/Kafka.antt =====
-- mq/kafka: the conversion of messages, the settings of the client library, and the producer.
pub mod Messages
pub mod Carrying
pub mod Settings
pub mod Producer
pub mod Interleaving
pub mod Delivery
pub mod Sends
