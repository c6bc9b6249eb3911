-- ===== src/Storage/Restore.antt =====
-- `ForEachRawPacketForRestore` of internal/storage/sqlite.go: a callback is handed the packets one
-- after the other, the oldest first. The cursor reads the table as it was when the query began.
pub mod Holds
pub mod Quiet
pub mod Tracked
use mesh_monday.Base.{List, [], ◌∷◌, Option, none, some, Result, ok, err}
use mesh_monday.Storage.Schema.{RawPacket, Db}
use mesh_monday.Storage.Exec.{SqlError, World, exec}
use mesh_monday.Storage.Statements.{Outcome}
use mesh_monday.Storage.Queries.{select_restore}

-- `rows.Next()` with the Scan, which may fail as a statement may.
unfoldable pub next_row : Db → Outcome (Unit {0})
next_row db = (ok tt, db)

-- What the callback has gathered, and the error that ended the scan, if one did.
abbrev pub Scanned : Type 0 → Type 0
Scanned R = (R × Option SqlError) × World

abbrev pub Callback : Type 0 → Type 0
Callback R = RawPacket → R → World → Scanned R

after_call : {R : Type 0} → (R → World → Scanned R) → Scanned R → Scanned R
after_call next ((r, some e), w) = ((r, some e), w)
after_call next ((r, none), w) = next r w

on_row :
    {R : Type 0}
    → Callback R
    → (R → World → Scanned R)
    → RawPacket
    → R
    → Result SqlError (Unit {0}) × World
    → Scanned R
unfolding after_call
on_row call next row r (err e, w) = ((r, some e), w)
on_row call next row r (ok u, w) = after_call next (call row r w)

-- `rows.Err()`
at_end : {R : Type 0} → R → Result SqlError (Unit {0}) × World → Scanned R
at_end r (err e, w) = ((r, some e), w)
at_end r (ok u, w) = ((r, none), w)

-- The loop over the rows.
scan_rows : {R : Type 0} → Callback R → List RawPacket → R → World → Scanned R
unfolding on_row at_end
scan_rows call [] r w = at_end r (exec next_row w)
scan_rows call (row ∷ rows) r w = on_row call (scan_rows call rows) row r (exec next_row w)

on_rows : {R : Type 0} → Callback R → R → Result SqlError (List RawPacket) × World → Scanned R
unfolding scan_rows
on_rows call r (err e, w) = ((r, some e), w)
on_rows call r (ok rows, w) = scan_rows call rows r w

-- `ForEachRawPacketForRestore`
pub for_each_raw_packet_for_restore : {R : Type 0} → Callback R → R → World → Scanned R
unfolding on_rows
for_each_raw_packet_for_restore call r w = on_rows call r (exec select_restore w)
