-- ===== src/Storage/Retention/Overlap.antt =====
-- The pruning of internal/storage/retention.go as it runs beside the handlers: each of its statements is
-- one step, and between any two of them other calls may run theirs. A statement that fails is no step,
-- and an error or the end of the context stops the pruning where it is.
pub mod Guarded
pub mod Deleted
pub mod Added
pub mod Recent
pub mod Alone
mod Tests
pub mod Safe
use mesh_monday.Base.{ℕ, ◌≡◌, Bool, true, List, [], ◌∷◌, Bytes, take, drop, keep, All}
use mesh_monday.Platform.{Platform}
use mesh_monday.Go.Time.{Time}
use mesh_monday.Storage.Schema.{RawPacket, Checkin, Observation, CheckinPacket, Snapshot, Db}
use mesh_monday.Storage.Statements.{
  insert_raw, insert_checkin_row, insert_observation_row, insert_link_row, delete_raw,
}
use mesh_monday.Storage.Retention.{
  prune_scan_batch_size, prune_delete_chunk, needed_hashes, should_retain_raw_packet, last_id,
  to_delete,
}
use mesh_monday.Storage.Retention.Rows.{above}

-- Where the pruning is: before it has read the hashes that are needed, before it scans behind an id, with
-- ids of a batch still to be deleted, or at its end.
pub data Phase : Type 0 where
  starting : Phase
  scanning : (protected : List Bytes) (last : ℕ) → Phase
  deleting : (protected : List Bytes) (last : ℕ) (ids : List ℕ) → Phase
  stopped : Phase

-- What one scan finds.
abbrev pub batch : ℕ → Db → List RawPacket
batch last db = take prune_scan_batch_size (keep (above last) db.raw_packets)

-- A chunk is gone, and these ids are left.
pub after_chunk_of : List Bytes → ℕ → List ℕ → Phase
after_chunk_of protected last [] = scanning protected last
after_chunk_of protected last (i ∷ ids) = deleting protected last (i ∷ ids)

-- The batch is marked: the loop goes on behind it if nothing in it is to go.
pub after_marks : List Bytes → ℕ → ℕ → List ℕ → Phase
after_marks protected last reached [] = scanning protected reached
after_marks protected last reached (i ∷ ids) = deleting protected last (i ∷ ids)

module _ (p : Platform) (tz : Bytes) (cutoff : Time) where
  abbrev pub retains : List Bytes → RawPacket → Bool
  retains protected = should_retain_raw_packet p tz cutoff protected

  pub after_scan : List Bytes → ℕ → List RawPacket → Phase
  unfolding after_marks
  after_scan protected last [] = stopped
  after_scan protected last (r ∷ rows) =
      after_marks protected last (last_id (r ∷ rows)) (to_delete (retains protected) (r ∷ rows))

  -- Every packet with the hash was seen on a Monday since the cutoff, as is a packet that the handler
  -- files a check-in of while the pruning runs.
  abbrev pub IsRecent : Bytes → Db → Type 0
  IsRecent hash db =
      All (λ (r : RawPacket). r.packet_hash ≡ hash → retains [] r ≡ true) db.raw_packets

  -- The statements of the pruning.
  pub data PruneStep : Phase → Db → Phase → Db → Type 0 where
    read_protected : (db : Db) → PruneStep starting db (scanning (needed_hashes db) 0) db
    scan :
        (protected : List Bytes) (last : ℕ) (db : Db)
        → PruneStep (scanning protected last) db (after_scan protected last (batch last db)) db
    delete :
        (protected : List Bytes) (last : ℕ) (ids : List ℕ) (db : Db)
        → PruneStep
            (deleting protected last ids)
            db
            (after_chunk_of protected last (drop prune_delete_chunk ids))
            (delete_raw (take prune_delete_chunk ids) db).1

  -- The pruning, and the statements of other calls.
  pub data Step : Phase → Db → Phase → Db → Type 0 where
    pruning : {at : Phase} {b : Db} {to : Phase} {d : Db} → PruneStep at b to d → Step at b to d
    stop : (at : Phase) (db : Db) → Step at db stopped db
    store_packet : (at : Phase) (r : RawPacket) (db : Db) → Step at db at (insert_raw r db).1
    note_observer :
        (at : Phase) (o : Observation) (db : Db) → Step at db at (insert_observation_row o db).1
    add_link : (at : Phase) (l : CheckinPacket) (db : Db) → Step at db at (insert_link_row l db).1
    check_in :
        (at : Phase) (c : Checkin) (db : Db)
        → IsRecent c.packet_hash db
        → Step at db at (insert_checkin_row c db).1
    store_board :
        (at : Phase) (rows : List Snapshot) (db : Db)
        → Step at db at (record db { snapshots = rows })

  -- What steps make of a store, from the start of a pruning on.
  pub data IsReached (a : Db) : Phase → Db → Type 0 where
    start : IsReached a starting a
    next : {at to : Phase} {b d : Db} → IsReached a at b → Step at b to d → IsReached a to d

  -- What the statements of the pruning make of it, with none of another call in between.
  pub data IsPruned (a : Db) : Phase → Db → Type 0 where
    untouched : IsPruned a starting a
    pruned_on : {at to : Phase} {b d : Db} → IsPruned a at b → PruneStep at b to d → IsPruned a to d
