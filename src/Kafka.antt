-- ===== src/Kafka.antt =====
-- The consumer of Kafka messages: pkg/kafka/consumer.go.
mod Tests
pub mod Consumer
