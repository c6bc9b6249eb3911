-- ===== src/Storage/Retention/Overlap/Alone.antt =====
-- `PruneRawPackets` where no other call comes in between its statements.
use mesh_monday.Base.{
  ℕ, zero, suc, ◌+◌, ◌*◌, ◌≡◌, refl, sym, subst, inl, inr, Bool-cases, ltb, List, [], ◌∷◌, take,
  drop, Bytes, Option, none, some, Result, ok, err, length,
}
use mesh_monday.Platform.{Platform}
use mesh_monday.Go.Time.{Time, sub_days}
use mesh_monday.Checkins.Weeks.{week_start_monday}
use mesh_monday.Storage.Schema.{RawPacket, Db}
use mesh_monday.Storage.Exec.{SqlError, World, exec, wait, next_wait}
use mesh_monday.Storage.Statements.{delete_raw}
use mesh_monday.Storage.Retry.Once.{Ran, exec-Ran, retry-Ran}
use mesh_monday.Storage.Retention.{
  Deletion, deleted, Counted, prune_scan_batch_size, prune_delete_chunk, retention_busy_max,
  scan_raw_packet_batch, protected_packet_hashes, needed_hashes, on_context, after_chunk,
  delete_chunk, delete_chunks, delete_raw_packet_ids, after_deletes, last_id, to_delete,
  delete_or_advance, on_batch, prune_loop, retained, on_protected, prune_raw_packets,
}
use mesh_monday.Storage.Retention.Deletes.{delete_raw-IsAtomic, delete_raw-eq}
use mesh_monday.Storage.Retention.Prune.{scan-IsAtomic, scan-eq}
use mesh_monday.Storage.Retention.Effects.{protected-IsAtomic}
use mesh_monday.Storage.Retention.Overlap.{
  Phase, starting, scanning, deleting, stopped, after_chunk_of, after_marks, retains, after_scan,
  read_protected, scan, delete, IsPruned, untouched, pruned_on,
}

-- Of a result of the loops: what holds of the store where the work is cut short, and where it is done.
abbrev Leaves : (Db → Type 0) → (Db → Type 0) → Option Deletion × World → Type 0
Leaves P Q (none, w) = P w.db
Leaves P Q (some (deleted n (some e)), w) = P w.db
Leaves P Q (some (deleted n none), w) = Q w.db

on_context-Leaves :
    (P Q : Db → Type 0) (total : ℕ) (go : Counted) (w : World)
    → P w.db
    → ((w' : World) → w'.db ≡ w.db → Leaves P Q (go w'))
    → Leaves P Q (on_context total go (wait w))
unfolding on_context wait
on_context-Leaves P Q total go w h k = elim (Bool-cases (next_wait w.waits).0) [
  | inl e ↦ rw e h
  | inr e ↦ rw e (k (record w { waits = (next_wait w.waits).1 }) refl)
]

module _ (p : Platform) (tz : Bytes) (cutoff : Time) (a : Db) where
  abbrev IsPath : Phase → Db → Type 0
  IsPath = IsPruned p tz cutoff a

  abbrev pub IsSomewhere : Db → Type 0
  IsSomewhere db = (at : Phase) × IsPath at db

  -- Of a result: the steps reach its store, and they are at their end where it has no error.
  abbrev Ends : Option Deletion × World → Type 0
  Ends = Leaves IsSomewhere (IsPath stopped)

  pub record IsPruning (r : Option Deletion × World) : Type 0 where
    pub at : Phase
    pub path : IsPath at r.1.db
    pub done : (n : ℕ) → r.0 ≡ some (deleted n none) → at ≡ stopped

  Ends-IsPruning : (r : Option Deletion × World) → Ends r → IsPruning r
  Ends-IsPruning (none, w) (at, path) = record { at = at; path = path; done = λ n e. cc }
  Ends-IsPruning (some (deleted n (some f)), w) (at, path) = record {
    at = at;
    path = path;
    done = λ m e. cc;
  }
  Ends-IsPruning (some (deleted n none), w) path = record {
    at = stopped;
    path = path;
    done = λ m e. refl;
  }

  module _ (protected : List Bytes) where
    abbrev Chunks : ℕ → Option Deletion × World → Type 0
    Chunks last = Leaves IsSomewhere (IsPath (scanning protected last))

    after_chunk-Chunks :
        (last : ℕ) (ids : List ℕ) (total : ℕ) (go : ℕ → Counted) (db : Db)
        → IsPath (deleting protected last ids) db
        → ((n : ℕ) (w : World)
            → IsPath (after_chunk_of protected last (drop prune_delete_chunk ids)) w.db
            → Chunks last (go n w))
        → (r : Result SqlError ℕ × World) → Ran (delete_raw (take prune_delete_chunk ids)) db r
        → Chunks last (after_chunk total go r)
    unfolding after_chunk
    after_chunk-Chunks last ids total go db at k (err e, w) ran =
        (deleting protected last ids, rw ran at)
    after_chunk-Chunks last ids total go db at k (ok n, w) ran =
        let (e, count) = delete_raw-eq (take prune_delete_chunk ids) db w.db n ran in
        let there =
          subst (IsPath (after_chunk_of protected last (drop prune_delete_chunk ids))) (sym e)
            (pruned_on at (delete protected last ids db)) in
        on_context-Leaves IsSomewhere (IsPath (scanning protected last)) (total + n)
          (go (total + n)) w (after_chunk_of protected last (drop prune_delete_chunk ids), there)
          (λ w' same_db. k (total + n) w' (rw same_db there))

    delete_chunks-Chunks :
        (fuel last : ℕ) (ids : List ℕ) (total : ℕ) (w : World)
        → IsPath (after_chunk_of protected last ids) w.db
        → Chunks last (delete_chunks p fuel ids total w)
    unfolding delete_chunks after_chunk_of delete_chunk
    delete_chunks-Chunks zero last [] total w at = at
    delete_chunks-Chunks zero last (i ∷ ids) total w at = (deleting protected last (i ∷ ids), at)
    delete_chunks-Chunks (suc fuel) last [] total w at = at
    delete_chunks-Chunks (suc fuel) last (i ∷ ids) total w at =
        let chunk = take prune_delete_chunk (i ∷ ids) in
        let rest = drop prune_delete_chunk (i ∷ ids) in
        after_chunk-Chunks last (i ∷ ids) total (delete_chunks p fuel rest) w.db at
          (λ n w'. delete_chunks-Chunks fuel last rest n w') (delete_chunk p chunk w)
          (retry-Ran (delete_raw chunk) (delete_raw-IsAtomic chunk) p w.db retention_busy_max w
            refl)

    -- What the rest of the loop does from a scan on.
    abbrev GoesOn : (ℕ → ℕ → Counted) → Type 0
    GoesOn again =
        (last total : ℕ) (w : World)
        → IsPath (scanning protected last) w.db
        → Ends (again last total w)

    after_deletes-IsPath :
        (last total : ℕ) (again : ℕ → ℕ → Counted)
        → GoesOn again
        → (x : Option Deletion × World) → Chunks last x
        → Ends (after_deletes total (again last) x)
    unfolding after_deletes
    after_deletes-IsPath last total again go (none, w) h = h
    after_deletes-IsPath last total again go (some (deleted n (some e)), w) h = h
    after_deletes-IsPath last total again go (some (deleted n none), w) h =
        elim (Bool-cases (ltb 0 n)) [
          | inl e ↦ rw e (
              on_context-Leaves IsSomewhere (IsPath stopped) (total + n) (again last (total + n)) w
                (scanning protected last, h) (λ w' same_db. go last (total + n) w' (rw same_db h)))
          | inr e ↦ rw e (go last (total + n) w h)
        ]

    delete_or_advance-IsPath :
        (last total : ℕ) (again : ℕ → ℕ → Counted) (rows : List RawPacket) (w : World)
        → GoesOn again
        → (ids : List ℕ) → IsPath (after_marks protected last (last_id rows) ids) w.db
        → Ends (delete_or_advance p again last total rows ids w)
    unfolding delete_or_advance after_marks
    delete_or_advance-IsPath last total again rows w go [] at = go (last_id rows) total w at
    delete_or_advance-IsPath last total again rows w go (i ∷ ids) at =
        after_deletes-IsPath last total again go (delete_raw_packet_ids p (i ∷ ids) w) (
          unfold delete_raw_packet_ids in
          delete_chunks-Chunks (length (i ∷ ids)) last (i ∷ ids) 0 w (unfold after_chunk_of in at))

    on_batch-IsPath :
        (last total : ℕ) (again : ℕ → ℕ → Counted) (db : Db)
        → GoesOn again
        → IsPath (scanning protected last) db
        → (r : Result SqlError (List RawPacket) × World)
        → Ran (scan_raw_packet_batch last prune_scan_batch_size) db r
        → Ends (on_batch p (retains p tz cutoff protected) again last total r)
    unfolding on_batch after_scan
    on_batch-IsPath last total again db go at (err e, w) ran = (scanning protected last, rw ran at)
    on_batch-IsPath last total again db go at (ok [], w) ran =
        let (same_db, rows) = scan-eq last prune_scan_batch_size db w.db [] ran in
        let scanned =
          subst (λ rows. IsPath (after_scan p tz cutoff protected last rows) db) rows
            (pruned_on at (scan protected last db)) in
        rw same_db scanned
    on_batch-IsPath last total again db go at (ok (r ∷ rest), w) ran =
        let (same_db, rows) = scan-eq last prune_scan_batch_size db w.db (r ∷ rest) ran in
        let scanned =
          subst (λ rows. IsPath (after_scan p tz cutoff protected last rows) db) rows
            (pruned_on at (scan protected last db)) in
        delete_or_advance-IsPath last total again (r ∷ rest) w go
          (to_delete (retains p tz cutoff protected) (r ∷ rest)) (rw same_db scanned)

    prune_loop-IsPath : (fuel : ℕ) → GoesOn (prune_loop p (retains p tz cutoff protected) fuel)
    unfolding prune_loop
    prune_loop-IsPath zero last total w at = (scanning protected last, at)
    prune_loop-IsPath (suc fuel) last total w at =
        on_context-Leaves IsSomewhere (IsPath stopped) total _ w (scanning protected last, at)
          (λ w' same_db.
            on_batch-IsPath last total (prune_loop p (retains p tz cutoff protected) fuel) w'.db
              (prune_loop-IsPath fuel) (rw same_db at)
              (exec (scan_raw_packet_batch last prune_scan_batch_size) w')
              (exec-Ran (scan_raw_packet_batch last prune_scan_batch_size)
                (scan-IsAtomic last prune_scan_batch_size) w'))

module _ (p : Platform) (now : Time) (tz : Bytes) (weeks : ℕ) (w : World) where
  -- The start of the oldest week of which Monday traffic is kept.
  abbrev pub cutoff_of : Time
  cutoff_of = sub_days (week_start_monday p now tz) (7 * weeks)

  on_protected-IsPath :
      (r : Result SqlError (List Bytes) × World)
      → Ran protected_packet_hashes w.db r
      → Ends p tz cutoff_of w.db (on_protected p now tz weeks r)
  unfolding on_protected protected_packet_hashes retained
  on_protected-IsPath (err e, w') ran = (starting, rw ran untouched)
  on_protected-IsPath (ok hashes, w') ran =
      let same_db : w'.db ≡ w.db = cc in
      let known : hashes ≡ needed_hashes w.db = cc in
      rw known (
        prune_loop-IsPath p tz cutoff_of w.db (needed_hashes w.db) (length w'.db.raw_packets + 1) 0
          0 w' (rw same_db (pruned_on untouched (read_protected w.db))))

  -- Whatever fails and whenever its context ends, a call of `PruneRawPackets` leaves a store that the
  -- statements of the pruning, and none of another call, reach from the one it began with; and where
  -- it ends without an error, they are at their end, with no packet left to scan.
  pub prune_raw_packets-IsPruned :
      IsPruning p tz cutoff_of w.db (prune_raw_packets p now tz weeks w)
  unfolding prune_raw_packets
  prune_raw_packets-IsPruned =
      Ends-IsPruning p tz cutoff_of w.db (prune_raw_packets p now tz weeks w) (
        on_protected-IsPath (exec protected_packet_hashes w)
          (exec-Ran protected_packet_hashes protected-IsAtomic w))
