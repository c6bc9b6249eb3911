-- ===== src/Storage/Retention/Prune.antt =====
-- `PruneRawPackets` ends, deletes what is not retained and only that, and never a check-in.
use mesh_monday.Base.{
  ℕ, zero, suc, ◌+◌, ◌<◌, ◌≡◌, refl, sym, ◌∙◌, Bool, List, [], ◌∷◌, inl, inr, arith, Bool-cases,
  keep, keep-All, length, take, take-nil, ltb, All, All-keep, Result, ok, err, Option, none, some,
  Bytes,
}
use mesh_monday.Platform.{Platform}
use mesh_monday.Storage.Schema.{RawPacket, Db}
use mesh_monday.Storage.Exec.{SqlError, World, exec}
use mesh_monday.Storage.Retry.Once.{Ran, IsAtomic, exec-Ran}
use mesh_monday.Storage.Retention.{
  Deletion, deleted, Counted, prune_scan_batch_size, scan_raw_packet_batch, delete_raw_packet_ids,
  last_id, to_delete, after_deletes, delete_or_advance, on_batch, prune_loop,
}
use mesh_monday.Storage.Retention.Rows.{
  above, RetainedUpTo, to_delete-NotRetained, count_above, count_above-deleted,
  count_above-advanced, nothing_to_delete, RetainedUpTo-advanced,
}
use mesh_monday.Storage.Retention.Ends.{Ends, on_context-Ends}
use mesh_monday.Storage.Retention.Deletes.{IsUnderway, Gone, spare_ids, delete_raw_packet_ids-Ends}

pub scan-IsAtomic : (last n : ℕ) → IsAtomic (scan_raw_packet_batch last n)
unfolding scan_raw_packet_batch
scan-IsAtomic last n db db' e h = cc

pub scan-eq :
    (last n : ℕ) (db db' : Db) (rows : List RawPacket)
    → scan_raw_packet_batch last n db ≡ (ok rows, db')
    → (db' ≡ db) × (take n (keep (above last) db.raw_packets) ≡ rows)
unfolding scan_raw_packet_batch
scan-eq last n db db' rows e = (cc, cc)

module _ (retain : RawPacket → Bool) (protected : Bytes → Bool) (p : Platform) (a : Db) where
  abbrev pub Underway : Db → Type 0
  Underway = IsUnderway retain protected p a

  -- Between two rounds, with `last` the id that the scan has reached.
  pub record IsBetween (last total : ℕ) (db : Db) : Type 0 where
    pub underway : Underway db
    pub scanned : All (RetainedUpTo retain last) db.raw_packets
    pub counted : total + length db.raw_packets ≡ length a.raw_packets

  -- What the loop has done when it is done.
  abbrev pub Pruned : ℕ → Db → Type 0
  Pruned n db =
      Underway db
      × (db.raw_packets ≡ keep retain a.raw_packets)
      × (n + length db.raw_packets ≡ length a.raw_packets)

  -- The rest of the loop, with fuel for so many rows.
  abbrev pub GoesOn : ℕ → (ℕ → ℕ → Counted) → Type 0
  GoesOn fuel again =
      (last total : ℕ) (w : World)
      → count_above last w.db.raw_packets < fuel
      → IsBetween last total w.db
      → Ends Underway Pruned (again last total w)

  after_deletes-Ends :
      (fuel last total : ℕ) (i : ℕ) (ids : List ℕ) (again : ℕ → ℕ → Counted) (db : Db)
      → GoesOn fuel again
      → count_above last (keep (spare_ids (i ∷ ids)) db.raw_packets) < fuel
      → IsBetween last total db
      → (r : Option Deletion × World) → Ends Underway (Gone retain protected p a (i ∷ ids) 0 db) r
      → Ends Underway Pruned (after_deletes total (again last) r)
  unfolding after_deletes
  after_deletes-Ends fuel last total i ids again db go less b (none, w) h = h
  after_deletes-Ends fuel last total i ids again db go less b (some (deleted n (some e)), w) h = h
  after_deletes-Ends fuel last total i ids again db go less b (some (deleted n none), w)
        (u, raw, sum) =
      let next : (w' : World) → w'.db ≡ w.db → Ends Underway Pruned (again last (total + n) w') =
        λ w' e. go last (total + n) w' (rw (e, raw) less) (
          rw e (record {
            underway = u;
            scanned = rw raw (
                All-keep (RetainedUpTo retain last) (spare_ids (i ∷ ids)) db.raw_packets b.scanned);
            counted = omega (arith, sum, b.counted);
          })) in
      elim (Bool-cases (ltb 0 n)) [
        | inl e ↦
            rw e (on_context-Ends Underway Pruned (total + n) (again last (total + n)) w u next)
        | inr e ↦ rw e (next w refl)
      ]

  delete_or_advance-Ends :
      (fuel last total : ℕ) (again : ℕ → ℕ → Counted) (r : RawPacket) (batch : List RawPacket)
      (w : World)
      → GoesOn fuel again
      → count_above last w.db.raw_packets < suc fuel
      → IsBetween last total w.db
      → take prune_scan_batch_size (keep (above last) w.db.raw_packets) ≡ r ∷ batch
      → (ids : List ℕ) → to_delete retain (r ∷ batch) ≡ ids
      → Ends Underway Pruned (delete_or_advance p again last total (r ∷ batch) ids w)
  unfolding delete_or_advance
  delete_or_advance-Ends fuel last total again r batch w go less b rows [] e =
      let rows' : take (suc 399) (keep (above last) w.db.raw_packets) ≡ r ∷ batch = rows in
      let asc = b.underway.numbered.ascending in
      rw (← rows') (
        go (last_id (take (suc 399) (keep (above last) w.db.raw_packets))) total w
          (omega (arith, count_above-advanced last 399 w.db.raw_packets batch r asc rows'))
          (record {
            underway = b.underway;
            scanned =
                RetainedUpTo-advanced retain last 399 w.db.raw_packets asc (rw rows' e) b.scanned;
            counted = b.counted;
          }))
  delete_or_advance-Ends fuel last total again r batch w go less b rows (i ∷ ids) e =
      let asc = b.underway.numbered.ascending in
      let listed : to_delete retain (take 400 (keep (above last) w.db.raw_packets)) ≡ i ∷ ids =
        rw rows e in
      after_deletes-Ends fuel last total i ids again w.db go
        (omega (arith, count_above-deleted retain last 400 w.db.raw_packets i ids listed)) b
        (delete_raw_packet_ids p (i ∷ ids) w)
        (delete_raw_packet_ids-Ends retain protected p a (i ∷ ids) w b.underway
          (rw (← listed) (to_delete-NotRetained retain last 400 w.db.raw_packets asc)))

  on_batch-Ends :
      (fuel last total : ℕ) (again : ℕ → ℕ → Counted) (db : Db)
      → GoesOn fuel again
      → count_above last db.raw_packets < suc fuel
      → IsBetween last total db
      → (r : Result SqlError (List RawPacket) × World)
      → Ran (scan_raw_packet_batch last prune_scan_batch_size) db r
      → Ends Underway Pruned (on_batch p retain again last total r)
  unfolding on_batch
  on_batch-Ends fuel last total again db go less b (err e, w) ran = rw ran b.underway
  on_batch-Ends fuel last total again db go less b (ok [], w) ran =
      let (same_db, rows) = scan-eq last 400 db w.db [] ran in
      let empty = take-nil 399 (keep (above last) db.raw_packets) rows in
      let whole =
        keep-All retain db.raw_packets
          (nothing_to_delete retain last db.raw_packets empty b.scanned) in
      rw same_db (b.underway, sym whole ∙ b.underway.spares.kept, b.counted)
  on_batch-Ends fuel last total again db go less b (ok (r ∷ batch), w) ran =
      let (same_db, rows) = scan-eq last 400 db w.db (r ∷ batch) ran in
      delete_or_advance-Ends fuel last total again r batch w go (rw same_db less) (rw same_db b)
        (rw same_db rows) (to_delete retain (r ∷ batch)) refl

  pub prune_loop-Ends : (fuel : ℕ) → GoesOn fuel (prune_loop p retain fuel)
  unfolding prune_loop
  prune_loop-Ends zero last total w less b = absurd (omega arith)
  prune_loop-Ends (suc fuel) last total w less b =
      on_context-Ends Underway Pruned total _ w b.underway (λ w' e.
        on_batch-Ends fuel last total (prune_loop p retain fuel) w'.db (prune_loop-Ends fuel)
          (rw e less) (rw e b) (exec (scan_raw_packet_batch last prune_scan_batch_size) w')
          (exec-Ran (scan_raw_packet_batch last prune_scan_batch_size)
            (scan-IsAtomic last prune_scan_batch_size) w'))
