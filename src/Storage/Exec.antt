-- ===== src/Storage/Exec.antt =====
-- Statements that can fail. What SQLite reports is one item of a schedule for each statement that
-- is run, and whether the context has ended one item for each wait and each look at it: a database that is
-- locked, a full disk or a shutdown may strike anywhere. A failed statement changes nothing.
use mesh_monday.Base.{
  Bool, false, ◌||◌, List, [], ◌∷◌, Option, none, some, Bytes, codes, Result, ok, err,
}
use mesh_monday.Platform.{Platform}
use mesh_monday.Go.Text.{contains, to_upper}
use mesh_monday.Storage.Schema.{Db}

-- A constraint that failed, or what else the driver or the context reports, as its text.
pub data SqlError : Type 0 where
  unique_failed foreign_key_failed context_done : SqlError
  fault : Bytes → SqlError

abbrev pub message : SqlError → Bytes
message unique_failed = codes "UNIQUE constraint failed"
message foreign_key_failed = codes "FOREIGN KEY constraint failed"
message context_done = codes "context canceled"
message (fault text) = text

pub record World : Type 0 where
  pub db : Db
  pub faults : List (Option SqlError)
  pub waits : List Bool

abbrev pub Exec : Type 0 → Type 0
Exec A = World → Result SqlError A × World

abbrev pub continue : {A B : Type 0} → Result SqlError A → (A → Exec B) → Exec B
continue (ok a) f w = f a w
continue (err e) f w = (err e, w)

infixl 5 ◌>>=◌ ◌>>◌
abbrev pub ◌>>=◌ : {A B : Type 0} → Exec A → (A → Exec B) → Exec B
◌>>=◌ m f w = let (r, w') = m w in continue r f w'

abbrev pub ◌>>◌ : {B : Type 0} → Exec (Unit {0}) → Exec B → Exec B
m >> k = m >>= λ _. k

abbrev pub pure : {A : Type 0} → A → Exec A
pure a w = (ok a, w)

-- What the schedule says of the next statement, and the schedule behind it.
abbrev pub next_fault : List (Option SqlError) → Option SqlError × List (Option SqlError)
next_fault [] = (none, [])
next_fault (f ∷ fs) = (f, fs)

abbrev pub run_as : {A : Type 0} → Option SqlError → (Db → Result SqlError A × Db) → Exec A
run_as none statement w = let (r, db') = statement w.db in (r, record w { db = db' })
run_as (some e) statement w = (err e, w)

-- `db.ExecContext` of a statement.
unfoldable pub exec : {A : Type 0} → (Db → Result SqlError A × Db) → Exec A
exec statement w =
    let (f, fs) = next_fault w.faults in run_as f statement (record w { faults = fs })

abbrev pub next_wait : List Bool → Bool × List Bool
next_wait [] = (false, [])
next_wait (b ∷ bs) = (b, bs)

-- `select { case <-ctx.Done(): … case <-time.After(…): … }`: whether the context ended first.
unfoldable pub wait : Exec Bool
wait w = let (b, bs) = next_wait w.waits in (ok b, record w { waits = bs })

-- `isSQLiteBusyError`, the same in internal/ingest and internal/storage.
unfoldable pub is_sqlite_busy_error : Platform → SqlError → Bool
is_sqlite_busy_error p e =
    let msg = to_upper p (message e) in
    contains msg (codes "SQLITE_BUSY") || contains msg (codes "DATABASE IS LOCKED")
