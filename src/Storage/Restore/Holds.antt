-- ===== src/Storage/Restore/Holds.antt =====
-- What every call of the callback keeps, the scan keeps, wherever it ends.
use mesh_monday.Base.{inl, inr, Option-cases, List, [], ◌∷◌, none, some, Result, ok, err}
use mesh_monday.Storage.Schema.{RawPacket, Db}
use mesh_monday.Storage.Exec.{SqlError, World, exec, next_fault}
use mesh_monday.Storage.Queries.{select_restore}
use mesh_monday.Storage.Restore.{
  next_row, Scanned, Callback, after_call, on_row, at_end, scan_rows, on_rows,
  for_each_raw_packet_for_restore,
}

module _ {R : Type 0} (Q : R → Db → Type 0) (call : Callback R)
    (keep : (row : RawPacket) (r : R) (w : World)
      → Q r w.db
      → Q (call row r w).0.0 (call row r w).1.db) where
  fetch-Holds : (r : R) (w : World) → Q r w.db → Q r (exec next_row w).1.db
  unfolding exec next_row
  fetch-Holds r w h = elim (Option-cases (next_fault w.faults).0) [
    | inl e ↦ rw e h
    | inr (f, e) ↦ rw e h
  ]

  query-Holds : (r : R) (w : World) → Q r w.db → Q r (exec select_restore w).1.db
  unfolding exec select_restore
  query-Holds r w h = elim (Option-cases (next_fault w.faults).0) [
    | inl e ↦ rw e h
    | inr (f, e) ↦ rw e h
  ]

  after_call-Holds :
      (next : R → World → Scanned R)
      → ((r : R) (w : World) → Q r w.db → Q (next r w).0.0 (next r w).1.db)
      → (x : Scanned R) → Q x.0.0 x.1.db
      → Q (after_call next x).0.0 (after_call next x).1.db
  unfolding after_call
  after_call-Holds next go ((r, none), w) h = go r w h
  after_call-Holds next go ((r, some e), w) h = h

  on_row-Holds :
      (next : R → World → Scanned R)
      → ((r : R) (w : World) → Q r w.db → Q (next r w).0.0 (next r w).1.db)
      → (row : RawPacket) (r : R) (x : Result SqlError (Unit {0}) × World) → Q r x.1.db
      → Q (on_row call next row r x).0.0 (on_row call next row r x).1.db
  unfolding on_row
  on_row-Holds next go row r (ok u, w) h = after_call-Holds next go (call row r w) (keep row r w h)
  on_row-Holds next go row r (err e, w) h = h

  at_end-Holds :
      (r : R) (x : Result SqlError (Unit {0}) × World)
      → Q r x.1.db
      → Q (at_end r x).0.0 (at_end r x).1.db
  unfolding at_end
  at_end-Holds r (ok u, w) h = h
  at_end-Holds r (err e, w) h = h

  scan_rows-Holds :
      (rows : List RawPacket) (r : R) (w : World)
      → Q r w.db
      → Q (scan_rows call rows r w).0.0 (scan_rows call rows r w).1.db
  unfolding scan_rows
  scan_rows-Holds [] r w h = at_end-Holds r (exec next_row w) (fetch-Holds r w h)
  scan_rows-Holds (row ∷ rows) r w h =
      on_row-Holds (scan_rows call rows) (scan_rows-Holds rows) row r (exec next_row w)
        (fetch-Holds r w h)

  pub for_each-Holds :
      (r : R) (w : World)
      → Q r w.db
      → Q
          (for_each_raw_packet_for_restore call r w).0.0
          (for_each_raw_packet_for_restore call r w).1.db
  unfolding for_each_raw_packet_for_restore on_rows
  for_each-Holds r w h = queried (exec select_restore w) (query-Holds r w h)
    where
      queried :
          (x : Result SqlError (List RawPacket) × World)
          → Q r x.1.db
          → Q (on_rows call r x).0.0 (on_rows call r x).1.db
      queried (ok rows, w) h = scan_rows-Holds rows r w h
      queried (err e, w) h = h
