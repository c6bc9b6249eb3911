-- ===== src/Storage/Retention/Overlap/Safe.antt =====
-- The check-ins of a store while a pruning runs beside other calls.
use mesh_monday.Base.{
  ℕ, refl, sym, List, [], append-nil, Bytes, any_of-take, take, drop, All, All-map, ◌==◌,
}
use mesh_monday.Platform.{Platform}
use mesh_monday.Go.Time.{Time}
use mesh_monday.Storage.Schema.{RawPacket, Checkin, Db, IsConsistent}
use mesh_monday.Storage.Statements.{delete_raw}
use mesh_monday.Storage.Consistency.{delete_raw-IsConsistent}
use mesh_monday.Storage.Numbering.{IsNumbered, delete_raw-IsNumbered}
use mesh_monday.Storage.Kept.{
  HasKept, same_checkins-HasKept, replace_snapshots-HasKept, HasKept-IsInvariant,
}
use mesh_monday.Storage.Retention.{prune_delete_chunk}
use mesh_monday.Storage.Retention.Rows.{NotRetained}
use mesh_monday.Storage.Retention.Overlap.{
  Phase, batch, retains, PruneStep, read_protected, scan, delete, Step, pruning, stop, store_packet,
  note_observer, add_link, check_in, store_board, IsReached, start, next,
}
use mesh_monday.Storage.Retention.Overlap.Guarded.{
  IsGuarded, IsDoomed, HasGuards, needed_hashes-IsGuarded, chunk-HasGuards, scan-HasGuards,
}
use mesh_monday.Storage.Retention.Overlap.Deleted.{delete_raw-checkins, chunk_rest}
use mesh_monday.Storage.Retention.Overlap.Added.{
  store-HasGuards, check_in-HasGuards, same-HasGuards, insert_observation_row-SameGuards,
  insert_link_row-SameGuards,
}

module _ (p : Platform) (tz : Bytes) (cutoff : Time) where
  module _ (rows : List Checkin) where
    delete-HasKept :
        (protected : List Bytes) (ids : List ℕ) (db : Db)
        → HasKept rows db
        → IsGuarded p tz cutoff protected db
        → All (NotRetained (retains p tz cutoff protected) ids) db.raw_packets
        → HasKept rows (delete_raw ids db).1
    delete-HasKept protected ids db k g gone =
        same_checkins-HasKept rows db _ k (delete_raw-IsConsistent ids db k.consistent)
          (delete_raw-IsNumbered ids db k.numbered)
          (delete_raw-checkins p tz cutoff protected ids db g gone)

    chunk-NotRetained :
        (protected : List Bytes) (n : ℕ) (ids : List ℕ) (db : Db)
        → IsDoomed p tz cutoff protected ids db
        → All (NotRetained (retains p tz cutoff protected) (take n ids)) db.raw_packets
    chunk-NotRetained protected n ids db d =
        let retain = retains p tz cutoff protected in
        All-map {P = NotRetained retain ids} {Q = NotRetained retain (take n ids)}
          (λ (r : RawPacket) gone e. gone (any_of-take (λ j. j == r.id) n ids e)) db.raw_packets
          d.gone

    -- The invariant of the steps.
    abbrev IsSafe : Phase → Db → Type 0
    IsSafe at db = HasKept rows db × HasGuards p tz cutoff at db

    PruneStep-IsSafe :
        {at : Phase} {b : Db} {to : Phase} {d : Db}
        → PruneStep p tz cutoff at b to d
        → IsSafe at b
        → IsSafe to d
    PruneStep-IsSafe (read_protected db) (k, h) = (k, needed_hashes-IsGuarded p tz cutoff db)
    PruneStep-IsSafe (scan protected last db) (k, g) =
        (k, scan-HasGuards p tz cutoff protected last db k.numbered g (batch last db) refl)
    PruneStep-IsSafe (delete protected last ids db) (k, (g, d)) =
        let chunk = chunk-NotRetained protected prune_delete_chunk ids db d in
        let (g', d') = chunk_rest p tz cutoff protected prune_delete_chunk ids db g d in
        (
          delete-HasKept protected (take prune_delete_chunk ids) db k g chunk,
          chunk-HasGuards p tz cutoff protected last _ (drop prune_delete_chunk ids) g' d',
        )

    Step-IsSafe :
        {at : Phase} {b : Db} {to : Phase} {d : Db}
        → Step p tz cutoff at b to d
        → IsSafe at b
        → IsSafe to d
    Step-IsSafe (pruning s) h = PruneStep-IsSafe s h
    Step-IsSafe (stop at db) (k, h) = (k, tt)
    Step-IsSafe (store_packet at r db) (k, h) =
        ((HasKept-IsInvariant rows).raw r db k, store-HasGuards p tz cutoff at r db k.consistent h)
    Step-IsSafe (note_observer at o db) (k, h) = (
      (HasKept-IsInvariant rows).observation o db k,
      same-HasGuards p tz cutoff at db _ (insert_observation_row-SameGuards o db) h,
    )
    Step-IsSafe (add_link at l db) (k, h) = (
      (HasKept-IsInvariant rows).link l db k,
      same-HasGuards p tz cutoff at db _ (insert_link_row-SameGuards l db) h,
    )
    Step-IsSafe (check_in at c db recent) (k, h) =
        ((HasKept-IsInvariant rows).checkin c db k, check_in-HasGuards p tz cutoff at c db recent h)
    Step-IsSafe (store_board at board db) (k, h) = (
      replace_snapshots-HasKept rows db board k,
      same-HasGuards p tz cutoff at db _
          (record { packets = refl; next_id = refl; same_rows = refl }) h,
    )

  reached-IsSafe :
      {a b : Db} {at : Phase}
      → IsReached p tz cutoff a at b
      → HasKept a.checkins a
      → IsSafe a.checkins at b
  reached-IsSafe start k = (k, tt)
  reached-IsSafe {a = a} (next r s) k = Step-IsSafe a.checkins s (reached-IsSafe r k)

-- Where the constraints hold and the packets are numbered as a pruning begins, then however the statements of
-- the pruning and those of other calls follow on one another, and wherever the pruning stops, the
-- constraints go on to hold and no check-in that was there is lost, if the check-ins that are
-- filed meanwhile are of packets of Mondays since the cutoff.
pub IsReached-HasKept :
    (p : Platform) (tz : Bytes) (cutoff : Time) {a b : Db} {at : Phase}
    → IsReached p tz cutoff a at b
    → IsConsistent a
    → IsNumbered a
    → HasKept a.checkins b
IsReached-HasKept p tz cutoff {a = a} r v u =
    (reached-IsSafe p tz cutoff r
      (record { consistent = v; numbered = u; newer = ([], sym (append-nil a.checkins)) })).0
