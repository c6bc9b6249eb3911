-- ===== src/Web.antt =====
-- internal/web/server.go: the pages and the JSON interface.
pub mod Format
pub mod Server
mod Tests
