-- ===== src/Kafka.antt =====
-- internal/kafka: the producer (producer.go) and the consumer's loop (consumer.go).
pub mod Producer
pub mod Consumer
