-- ===== src/Ingest/Retry.antt =====
-- `withBusyRetry`: a write is tried again while the database is busy, at most sixteen times in all.
use mesh_monday.Base.{ℕ}
use mesh_monday.Platform.{Platform}
use mesh_monday.Storage.Exec.{Exec}
use mesh_monday.Storage.Retry.{retry}

abbrev pub busy_retry_attempts : ℕ
busy_retry_attempts = 15

abbrev pub with_busy_retry : {A : Type 0} → Platform → Exec A → Exec A
with_busy_retry p fn = retry p busy_retry_attempts fn
