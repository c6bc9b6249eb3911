-- ===== src/Ingest.antt =====
-- internal/ingest/service.go: from an MQTT message to the store.
pub mod Message
pub mod Retry
pub mod Service
pub mod Restore
