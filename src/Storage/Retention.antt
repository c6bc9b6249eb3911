-- ===== src/Storage/Retention.antt =====
-- internal/storage/retention.go: `PruneRawPackets`, which deletes the packets that no check-in needs
-- and that no longer count as Monday traffic.
pub mod Rows
pub mod Spares
pub mod Ends
pub mod Deletes
pub mod Prune
pub mod Effects
pub mod Overlap
pub mod Tests
use mesh_monday.Base.{
  ℕ, zero, suc, ◌+◌, ◌*◌, Bool, true, false, not, List, [], ◌∷◌, ◌++◌, map, Option, none, some,
  Bytes, ltb, if◌then◌else◌, same, keep, any_of, length, take, drop, Result, ok, err,
}
use mesh_monday.Platform.{Platform}
use mesh_monday.Go.Time.{Time, utc, sub_days, before}
use mesh_monday.Checkins.Weeks.{is_monday_in_tz, week_start_monday}
use mesh_monday.Storage.Schema.{RawPacket, Db, raw_id, checkin_hash, link_hash}
use mesh_monday.Storage.Exec.{SqlError, context_done, World, exec, wait}
use mesh_monday.Storage.Statements.{Outcome, delete_raw}
use mesh_monday.Storage.Retry.{retry}

abbrev pub prune_scan_batch_size : ℕ
prune_scan_batch_size = 400

abbrev pub prune_delete_chunk : ℕ
prune_delete_chunk = 50

abbrev pub retention_busy_max : ℕ
retention_busy_max = 8

-- SELECT … FROM raw_packets WHERE id > ? ORDER BY id LIMIT ?. The rows of the table stand in the
-- order of their ids. A time that `Format` wrote is one that `Parse` reads.
pub scan_raw_packet_batch : ℕ → ℕ → Db → Outcome (List RawPacket)
scan_raw_packet_batch after_id limit db =
    (ok (take limit (keep (λ (r : RawPacket). ltb after_id r.id) db.raw_packets)), db)

-- SELECT packet_hash FROM checkins UNION SELECT packet_hash FROM checkin_packets. The set of them
-- is asked for members only, so it may name a hash twice.
abbrev pub needed_hashes : Db → List Bytes
needed_hashes db = map checkin_hash db.checkins ++ map link_hash db.checkin_packets

unfoldable pub protected_packet_hashes : Db → Outcome (List Bytes)
protected_packet_hashes db = (ok (needed_hashes db), db)

abbrev pub is_protected : List Bytes → Bytes → Bool
is_protected hashes h = any_of (λ k. same k h) hashes

-- `shouldRetainRawPacket`
pub should_retain_raw_packet : Platform → Bytes → Time → List Bytes → RawPacket → Bool
should_retain_raw_packet p tz cutoff_week_start protected r =
    let observed_at : Time = record { unix = r.observed_at; zone = utc } in
    if is_protected protected r.packet_hash
    then true
    else if not (is_monday_in_tz p observed_at tz)
    then false
    else not (before (week_start_monday p observed_at tz) cutoff_week_start)

-- How many rows were deleted, and the error that ended the work, if one did.
pub data Deletion : Type 0 where
  deleted : ℕ → Option SqlError → Deletion

-- A loop on fuel; `none` where the fuel ran out.
abbrev pub Counted : Type 0
Counted = World → Option Deletion × World

abbrev pub finish : ℕ → Option SqlError → Counted
finish total e w = (some (deleted total e), w)

-- A look at the context, by `ctx.Err()` or during a wait: go on, unless it has ended.
pub on_context : ℕ → Counted → Result SqlError Bool × World → Option Deletion × World
on_context total next (err e, w) = finish total (some e) w
on_context total next (ok true, w) = finish total (some context_done) w
on_context total next (ok false, w) = next w

pub after_chunk : ℕ → (ℕ → Counted) → Result SqlError ℕ × World → Option Deletion × World
unfolding on_context
after_chunk total next (err e, w) = finish total (some e) w
after_chunk total next (ok n, w) = on_context (total + n) (next (total + n)) (wait w)

-- One DELETE with its attempts.
pub delete_chunk : Platform → List ℕ → World → Result SqlError ℕ × World
delete_chunk p ids = retry p retention_busy_max (exec (delete_raw ids))

-- The loop of `deleteRawPacketIDs`, over the ids from `start` on.
pub delete_chunks : Platform → ℕ → List ℕ → ℕ → Counted
unfolding after_chunk
delete_chunks p zero [] total w = finish total none w
delete_chunks p zero (i ∷ ids) total w = (none, w)
delete_chunks p (suc fuel) [] total w = finish total none w
delete_chunks p (suc fuel) (i ∷ ids) total w =
    after_chunk total (delete_chunks p fuel (drop prune_delete_chunk (i ∷ ids)))
      (delete_chunk p (take prune_delete_chunk (i ∷ ids)) w)

-- `deleteRawPacketIDs`; a round takes an id at least, so as many rounds as ids are enough.
pub delete_raw_packet_ids : Platform → List ℕ → Counted
unfolding delete_chunks
delete_raw_packet_ids p ids = delete_chunks p (length ids) ids 0

-- What follows the deletes of a round: an error ends the loop with the total of earlier rounds.
pub after_deletes : ℕ → (ℕ → Counted) → Option Deletion × World → Option Deletion × World
unfolding on_context
after_deletes total again (none, w) = (none, w)
after_deletes total again (some (deleted n (some e)), w) = finish total (some e) w
after_deletes total again (some (deleted n none), w) =
    let paused = on_context (total + n) (again (total + n)) (wait w) in
    let at_once = again (total + n) w in if ltb 0 n then paused else at_once

-- The id of the last row.
pub last_id : List RawPacket → ℕ
last_id [] = 0
last_id (r ∷ []) = r.id
last_id (r ∷ s ∷ rows) = last_id (s ∷ rows)

pub to_delete : (RawPacket → Bool) → List RawPacket → List ℕ
to_delete retain rows = map raw_id (keep (λ r. not (retain r)) rows)

-- The rest of a round, by the ids that are to be deleted: none, and the loop goes on behind the
-- batch, or some, and it scans again from where it was.
pub delete_or_advance : Platform → (ℕ → ℕ → Counted) → ℕ → ℕ → List RawPacket → List ℕ → Counted
unfolding after_deletes
delete_or_advance p again last total rows [] w = again (last_id rows) total w
delete_or_advance p again last total rows (i ∷ ids) w =
    after_deletes total (again last) (delete_raw_packet_ids p (i ∷ ids) w)

pub on_batch :
    Platform
    → (RawPacket → Bool)
    → (ℕ → ℕ → Counted)
    → ℕ
    → ℕ
    → Result SqlError (List RawPacket) × World
    → Option Deletion × World
unfolding delete_or_advance
on_batch p retain again last total (err e, w) = finish total (some e) w
on_batch p retain again last total (ok [], w) = finish total none w
on_batch p retain again last total (ok (r ∷ rows), w) =
    delete_or_advance p again last total (r ∷ rows) (to_delete retain (r ∷ rows)) w

-- The loop of `PruneRawPackets`.
pub prune_loop : Platform → (RawPacket → Bool) → ℕ → ℕ → ℕ → Counted
unfolding on_context on_batch
prune_loop p retain zero last total w = (none, w)
prune_loop p retain (suc fuel) last total w =
    on_context total
      (λ w'.
        on_batch p retain (prune_loop p retain fuel) last total
          (exec (scan_raw_packet_batch last prune_scan_batch_size) w'))
      (wait w)

-- What is kept when the pruning begins.
pub retained : Platform → Time → Bytes → ℕ → List Bytes → RawPacket → Bool
retained p now tz retain_monday_weeks protected =
    should_retain_raw_packet p tz (sub_days (week_start_monday p now tz) (7 * retain_monday_weeks))
      protected

pub on_protected :
    Platform → Time → Bytes → ℕ → Result SqlError (List Bytes) × World → Option Deletion × World
on_protected p now tz weeks (err e, w) = finish 0 (some e) w
on_protected p now tz weeks (ok protected, w) =
    prune_loop p (retained p now tz weeks protected) (length w.db.raw_packets + 1) 0 0 w

-- `PruneRawPackets`; a round deletes a packet or passes one, so a round for each and one more are
-- enough. A negative number of weeks is refused by `Validate`.
pub prune_raw_packets : Platform → Time → Bytes → ℕ → Counted
unfolding on_protected
prune_raw_packets p now tz retain_monday_weeks w =
    on_protected p now tz retain_monday_weeks (exec protected_packet_hashes w)
