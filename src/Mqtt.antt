-- ===== src/Mqtt.antt =====
-- internal/mqtt/consumer.go: which topics the consumer listens to, while connections come and go.
pub mod Consumer
pub mod Connect
