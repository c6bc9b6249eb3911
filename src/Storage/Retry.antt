-- ===== src/Storage/Retry.antt =====
-- A statement that is tried again while the database is busy: `withBusyRetry` of internal/ingest and
-- the loop over the attempts in `deleteRawPacketIDs` of internal/storage.
mod Tests
pub mod Bounds
pub mod Once
use mesh_monday.Base.{ℕ, zero, suc, Bool, not, if◌then◌else◌, Result, ok, err}
use mesh_monday.Platform.{Platform}
use mesh_monday.Storage.Exec.{SqlError, context_done, World, Exec, wait, is_sqlite_busy_error}

-- What a wait that was cut short returns: `ctx.Err()`.
after_wait : {A : Type 0} → Result SqlError Bool × World → Exec A → Result SqlError A × World
after_wait (ok done, w) again = if done then (err context_done, w) else again w
after_wait (err e, w) again = (err e, w)

-- `retries` are left after this call.
unfoldable pub retry : {A : Type 0} → Platform → ℕ → Exec A → Exec A
unfolding after_wait
retry p zero fn w = fn w
retry p (suc retries) fn w =
    let (r, w') = fn w in
    elim r [
      | ok a ↦ (ok a, w')
      | err e ↦
          let again = after_wait (wait w') (retry p retries fn) in
          if not (is_sqlite_busy_error p e) then (err e, w') else again
    ]
