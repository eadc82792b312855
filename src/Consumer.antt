-- ===== src/Consumer.antt =====
-- mq/kafka/consumer.go: the Kafka consumer.
pub mod Defs
pub mod Claims
pub mod Stopping
pub mod Lifecycle
pub mod Subscriptions
