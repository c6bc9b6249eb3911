-- ===== src/Storage/Retention/Effects.antt =====
-- What one call of `PruneRawPackets` does, under every schedule of faults and waits.
use mesh_monday.Base.{
  ℕ, ◌+◌, ◌≡◌, refl, ap, Bool, true, List, [], ◌∷◌, ◌++◌, map, arith, keep, any_of, length,
  length-keep_both, All, All-map, append-nil, Result, ok, err, none, some, Bytes, same_iff,
}
use mesh_monday.Platform.{Platform}
use mesh_monday.Go.Time.{Time}
use mesh_monday.Storage.Schema.{RawPacket, Db, IsConsistent, checkin_hash, link_hash}
use mesh_monday.Storage.Exec.{SqlError, World, exec}
use mesh_monday.Storage.Numbering.{IsNumbered}
use mesh_monday.Storage.Retry.Once.{Ran, IsAtomic, exec-Ran}
use mesh_monday.Storage.Retention.{
  Deletion, deleted, protected_packet_hashes, needed_hashes, is_protected, should_retain_raw_packet,
  retained, on_protected, prune_raw_packets,
}
use mesh_monday.Storage.Retention.Rows.{above, RetainedUpTo}
use mesh_monday.Storage.Retention.Spares.{Spares, Spares-refl, Protects}
use mesh_monday.Storage.Retention.Ends.{Ends, Ends-some, Ends-store, Ends-done}
use mesh_monday.Storage.Retention.Deletes.{IsUnderway}
use mesh_monday.Storage.Retention.Prune.{Pruned, prune_loop-Ends}

pub protected-IsAtomic : IsAtomic protected_packet_hashes
unfolding protected_packet_hashes
protected-IsAtomic db db' e h = cc

is_protected-cons :
    (h k : Bytes) (hashes : List Bytes)
    → is_protected hashes k ≡ true
    → is_protected (h ∷ hashes) k ≡ true
unfolding any_of
is_protected-cons h k hashes e = ground (arith, e)

is_protected-append :
    (more hashes : List Bytes) (k : Bytes)
    → is_protected hashes k ≡ true
    → is_protected (more ++ hashes) k ≡ true
is_protected-append [] hashes k e = e
is_protected-append (h ∷ more) hashes k e =
    is_protected-cons h k (more ++ hashes) (is_protected-append more hashes k e)

-- Every row of a list names its hash.
pub is_protected-map {ℓ} :
    {A : Type ℓ} (hash : A → Bytes) (rows : List A) (more : List Bytes)
    → All (λ r. is_protected (map hash rows ++ more) (hash r) ≡ true) rows
unfolding any_of
is_protected-map hash [] more = tt
is_protected-map hash (r ∷ rows) more = (
  ground (arith, (same_iff (hash r) (hash r)).1),
  All-map (λ s e. is_protected-cons (hash r) (hash s) (map hash rows ++ more) e) rows
      (is_protected-map hash rows more),
)

module _ (p : Platform) (now : Time) (tz : Bytes) (retain_monday_weeks : ℕ) (w : World) where
  -- What the pruning is to keep: what a check-in or a link needs, and the Mondays since the cutoff.
  abbrev pub is_kept : RawPacket → Bool
  is_kept = retained p now tz retain_monday_weeks (needed_hashes w.db)

  is_kept-Protects : (db : Db) → db ≡ w.db → Protects is_kept (is_protected (needed_hashes w.db)) db
  unfolding retained should_retain_raw_packet
  is_kept-Protects db e = rw e (record {
    retains = λ r f. rw f refl;
    checkins = is_protected-map checkin_hash w.db.checkins (map link_hash w.db.checkin_packets);
    links =
        All-map
          (λ l f.
            is_protected-append (map checkin_hash w.db.checkins)
              (map link_hash w.db.checkin_packets) (link_hash l) (rw append-nil at f))
          w.db.checkin_packets (is_protected-map link_hash w.db.checkin_packets []);
  })

  abbrev Underway : Db → Type 0
  Underway = IsUnderway is_kept (is_protected (needed_hashes w.db)) p w.db

  abbrev Done : ℕ → Db → Type 0
  Done = Pruned is_kept (is_protected (needed_hashes w.db)) p w.db

  begins : (db : Db) → db ≡ w.db → IsNumbered w.db → Underway db
  begins db e v = record {
    spares = rw e (Spares-refl is_kept w.db);
    numbered = rw e v;
    consistent = λ u. rw e u;
    protects = is_kept-Protects db e;
  }

  -- No id is 0, so nothing is scanned when the loop begins.
  none_scanned : IsNumbered w.db → All (RetainedUpTo is_kept 0) w.db.raw_packets
  none_scanned v =
      All-map {Q = RetainedUpTo is_kept 0} (λ r b le. absurd (omega (arith, b.0))) w.db.raw_packets
        v.bounded

  on_protected-Ends :
      IsNumbered w.db
      → (r : Result SqlError (List Bytes) × World) → Ran protected_packet_hashes w.db r
      → Ends Underway Done (on_protected p now tz retain_monday_weeks r)
  unfolding on_protected protected_packet_hashes
  on_protected-Ends v (err e, w') ran = begins w'.db ran v
  on_protected-Ends v (ok hashes, w') ran =
      let same_db : w'.db ≡ w.db = cc in
      let known : hashes ≡ needed_hashes w.db = cc in
      rw known (
        prune_loop-Ends is_kept (is_protected (needed_hashes w.db)) p w.db
          (length w'.db.raw_packets + 1) 0 0 w'
          (ground (arith, length-keep_both (above 0) w'.db.raw_packets))
          (record {
            underway = begins w'.db same_db v;
            scanned = rw same_db (none_scanned v);
            counted = omega (arith, ap (λ (d : Db). length d.raw_packets) same_db);
          }))

  prune_raw_packets-Ends :
      IsNumbered w.db → Ends Underway Done (prune_raw_packets p now tz retain_monday_weeks w)
  unfolding prune_raw_packets
  prune_raw_packets-Ends v =
      on_protected-Ends v (exec protected_packet_hashes w)
        (exec-Ran protected_packet_hashes protected-IsAtomic w)

  -- If the packets are numbered as the store numbers them, the pruning ends, whatever fails.
  pub prune_raw_packets_ends :
      IsNumbered w.db
      → (d : Deletion) × ((prune_raw_packets p now tz retain_monday_weeks w).0 ≡ some d)
  prune_raw_packets_ends v = Ends-some Underway Done _ (prune_raw_packets-Ends v)

  -- If the packets are numbered as the store numbers them, the pruning deletes no check-in and no
  -- link, and keeps every packet that one of them needs or that was seen on a Monday since the
  -- cutoff, whatever fails and wherever it stops; and the packets stay numbered.
  pub prune_raw_packets-Spares :
      IsNumbered w.db
      → Spares is_kept w.db (prune_raw_packets p now tz retain_monday_weeks w).1.db
        × IsNumbered (prune_raw_packets p now tz retain_monday_weeks w).1.db
  prune_raw_packets-Spares v =
      Ends-store Underway Done (λ db. Spares is_kept w.db db × IsNumbered db)
        (λ db u. (u.spares, u.numbered)) (λ n db d. (d.0.spares, d.0.numbered)) _
        (prune_raw_packets-Ends v)

  -- The pruning keeps the constraints.
  pub prune_raw_packets-IsConsistent :
      IsNumbered w.db
      → IsConsistent w.db
      → IsConsistent (prune_raw_packets p now tz retain_monday_weeks w).1.db
  prune_raw_packets-IsConsistent v u =
      Ends-store Underway Done IsConsistent (λ db k. k.consistent u) (λ n db d. d.0.consistent u) _
        (prune_raw_packets-Ends v)

  -- If the packets are numbered as the store numbers them and the pruning reports `n` deleted rows
  -- and no error, the packets left are those to be kept, in their order, and `n` are gone.
  pub prune_raw_packets-keep :
      IsNumbered w.db
      → (n : ℕ) → (prune_raw_packets p now tz retain_monday_weeks w).0 ≡ some (deleted n none)
      → ((prune_raw_packets p now tz retain_monday_weeks w).1.db.raw_packets
          ≡ keep is_kept w.db.raw_packets)
        × (n + length (keep is_kept w.db.raw_packets) ≡ length w.db.raw_packets)
  prune_raw_packets-keep v n e =
      let (_, raw, count) = Ends-done Underway Done n _ (prune_raw_packets-Ends v) e in
      (raw, omega (arith, count, ap length raw))
