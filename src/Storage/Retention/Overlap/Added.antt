-- ===== src/Storage/Retention/Overlap/Added.antt =====
-- Rows that other calls add while the pruning runs.
use mesh_monday.Base.{
  ℕ, ◌+◌, ◌<◌, ◌≡◌, true, false, ◌||◌, inl, inr, arith, Bool-cases, List, [], ◌∷◌, ◌++◌, Bytes,
  same, same_iff, has_key, All-map, All-snoc, All-both,
}
use mesh_monday.Platform.{Platform}
use mesh_monday.Go.Time.{Time}
use mesh_monday.Storage.Schema.{
  RawPacket, Checkin, Observation, CheckinPacket, Db, IsConsistent, checkin_hash, week_user,
  same_week_user, same_week_user_iff, has_raw,
}
use mesh_monday.Storage.Statements.{
  insert_raw, insert_checkin_row, insert_observation_row, insert_link_row,
}
use mesh_monday.Storage.Retention.Rows.{NotRetained}
use mesh_monday.Storage.Retention.Overlap.{
  Phase, starting, scanning, deleting, stopped, retains, IsRecent,
}
use mesh_monday.Storage.Retention.Overlap.Guarded.{
  IsHeld, IsGuarded, IsDoomed, HasGuards, next_id_free, recent_retained,
}

-- What is doomed and held is so by the packets, the check-ins and the next id.
pub record SameGuards (a b : Db) : Type 0 where
  pub packets : b.raw_packets ≡ a.raw_packets
  pub next_id : b.next_raw ≡ a.next_raw
  pub same_rows : b.checkins ≡ a.checkins

pub insert_observation_row-SameGuards :
    (o : Observation) (db : Db) → SameGuards db (insert_observation_row o db).1
unfolding insert_observation_row
insert_observation_row-SameGuards o db = record {
  packets = ground arith;
  next_id = ground arith;
  same_rows = ground arith;
}

pub insert_link_row-SameGuards :
    (l : CheckinPacket) (db : Db) → SameGuards db (insert_link_row l db).1
unfolding insert_link_row
insert_link_row-SameGuards l db = record {
  packets = ground arith;
  next_id = ground arith;
  same_rows = ground arith;
}

pub insert_checkin_row-packets :
    (c : Checkin) (db : Db)
    → ((insert_checkin_row c db).1.raw_packets ≡ db.raw_packets)
      × ((insert_checkin_row c db).1.next_raw ≡ db.next_raw)
unfolding insert_checkin_row
insert_checkin_row-packets c db = (ground arith, ground arith)

module _ (p : Platform) (tz : Bytes) (cutoff : Time) where
  -- A packet that is stored is a new one: no check-in has its hash, and no id that is to go is its.
  abbrev with_packet : RawPacket → Db → Db
  with_packet r db = record db {
    raw_packets = db.raw_packets ++ record r { id = db.next_raw } ∷ [];
    next_raw = db.next_raw + 1;
  }

  with_packet-IsGuarded :
      (protected : List Bytes) (r : RawPacket) (db : Db)
      → has_raw r.packet_hash db ≡ false
      → IsConsistent db
      → IsGuarded p tz cutoff protected db
      → IsGuarded p tz cutoff protected (with_packet r db)
  with_packet-IsGuarded protected r db new v g =
      All-map {Q = λ c. IsHeld p tz cutoff protected (checkin_hash c) (with_packet r db)}
        (λ c (held, parent).
          All-snoc
            (λ (s : RawPacket).
              s.packet_hash ≡ checkin_hash c → retains p tz cutoff protected s ≡ true)
            db.raw_packets _ held (λ q. let new' = rw q at new in cc (new', parent)))
        db.checkins
        (All-both (λ c. IsHeld p tz cutoff protected (checkin_hash c) db)
          (λ c. has_raw (checkin_hash c) db ≡ true) db.checkins g v.checkin_parent)

  with_packet-IsDoomed :
      (protected : List Bytes) (ids : List ℕ) (r : RawPacket) (db : Db)
      → IsDoomed p tz cutoff protected ids db
      → IsDoomed p tz cutoff protected ids (with_packet r db)
  with_packet-IsDoomed protected ids r db d = record {
    gone =
        All-snoc (NotRetained (retains p tz cutoff protected) ids) db.raw_packets _ d.gone
          (λ e. let free = next_id_free ids db.next_raw d.old in cc (e, free));
    old =
        All-map {P = λ i. i < db.next_raw} {Q = λ i. i < db.next_raw + 1}
          (λ i less. omega (arith, less)) ids d.old;
  }

  pub store-HasGuards :
      (at : Phase) (r : RawPacket) (db : Db)
      → IsConsistent db
      → HasGuards p tz cutoff at db
      → HasGuards p tz cutoff at (insert_raw r db).1
  unfolding insert_raw
  store-HasGuards at r db v h = elim (Bool-cases (has_raw r.packet_hash db)) [
    | inl old ↦ rw old h
    | inr new ↦ rw new (stored new at h)
  ]
    where
      stored :
          has_raw r.packet_hash db ≡ false
          → (at : Phase) → HasGuards p tz cutoff at db
          → HasGuards p tz cutoff at (with_packet r db)
      stored new starting h = tt
      stored new (scanning protected last) g = with_packet-IsGuarded protected r db new v g
      stored new (deleting protected last ids) (g, d) =
          (with_packet-IsGuarded protected r db new v g, with_packet-IsDoomed protected ids r db d)
      stored new stopped h = tt

  -- A check-in of a packet that is recent is held.
  with_checkin-IsGuarded :
      (protected : List Bytes) (c : Checkin) (db : Db)
      → IsRecent p tz cutoff c.packet_hash db
      → IsGuarded p tz cutoff protected db
      → IsGuarded p tz cutoff protected (insert_checkin_row c db).1
  unfolding insert_checkin_row
  with_checkin-IsGuarded protected c db recent g =
      let held =
        All-map
          {Q = λ (r : RawPacket).
            r.packet_hash ≡ c.packet_hash → retains p tz cutoff protected r ≡ true}
          (λ r k q. recent_retained p tz cutoff protected r (k q)) db.raw_packets recent in
      let both =
        All-snoc (λ d. IsHeld p tz cutoff protected (checkin_hash d) db) db.checkins _ g held in
      elim (Bool-cases (
        has_key checkin_hash same same_iff c.packet_hash db.checkins
        || has_key week_user same_week_user same_week_user_iff (week_user c) db.checkins)) [
          | inl old ↦ rw old g
          | inr new ↦ elim (Bool-cases (has_raw c.packet_hash db)) [
            | inr orphan ↦ rw (new, orphan) g
            | inl parent ↦ rw (new, parent) both
          ]
        ]

  same_packets-IsDoomed :
      (protected : List Bytes) (ids : List ℕ) (a b : Db)
      → b.raw_packets ≡ a.raw_packets
      → b.next_raw ≡ a.next_raw
      → IsDoomed p tz cutoff protected ids a
      → IsDoomed p tz cutoff protected ids b
  same_packets-IsDoomed protected ids a b e f d = record { gone = rw e d.gone; old = rw f d.old }

  same-IsGuarded :
      (protected : List Bytes) (a b : Db)
      → SameGuards a b
      → IsGuarded p tz cutoff protected a
      → IsGuarded p tz cutoff protected b
  same-IsGuarded protected a b s g = rw (s.packets, s.same_rows) g

  pub same-HasGuards :
      (at : Phase) (a b : Db)
      → SameGuards a b
      → HasGuards p tz cutoff at a
      → HasGuards p tz cutoff at b
  same-HasGuards starting a b s h = tt
  same-HasGuards (scanning protected last) a b s g = same-IsGuarded protected a b s g
  same-HasGuards (deleting protected last ids) a b s (g, d) = (
    same-IsGuarded protected a b s g,
    same_packets-IsDoomed protected ids a b s.packets s.next_id d,
  )
  same-HasGuards stopped a b s h = tt

  pub check_in-HasGuards :
      (at : Phase) (c : Checkin) (db : Db)
      → IsRecent p tz cutoff c.packet_hash db
      → HasGuards p tz cutoff at db
      → HasGuards p tz cutoff at (insert_checkin_row c db).1
  check_in-HasGuards starting c db recent h = tt
  check_in-HasGuards (scanning protected last) c db recent g =
      with_checkin-IsGuarded protected c db recent g
  check_in-HasGuards (deleting protected last ids) c db recent (g, d) =
      let (packets, next_id) = insert_checkin_row-packets c db in
      (
        with_checkin-IsGuarded protected c db recent g,
        same_packets-IsDoomed protected ids db _ packets next_id d,
      )
  check_in-HasGuards stopped c db recent h = tt
