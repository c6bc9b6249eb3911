-- ===== src/Storage/Retention/Overlap/Recent.antt =====
-- The handler files a check-in only where it has stored the packet and found it seen on a Monday. Such a
-- packet is recent, as `check_in` asks.
use mesh_monday.Base.{
  inl, inr, Bool-cases, ◌≡◌, true, false, arith, List, [], ◌∷◌, Bytes, same, same_iff, any_of,
  any_of-false, has_key, All, All-snoc,
}
use mesh_monday.Platform.{Platform}
use mesh_monday.Go.Time.{Time, before}
use mesh_monday.Checkins.Weeks.{is_monday_in_tz, week_start_monday}
use mesh_monday.Storage.Schema.{RawPacket, Db, raw_hash, has_raw}
use mesh_monday.Storage.Statements.{insert_raw}
use mesh_monday.Storage.Retention.{should_retain_raw_packet}
use mesh_monday.Storage.Retention.Overlap.{retains, IsRecent}

module _ (p : Platform) (tz : Bytes) (cutoff : Time) where
  seen_retained :
      (r : RawPacket) (t : Time)
      → r.observed_at ≡ t.unix
      → is_monday_in_tz p t tz ≡ true
      → before (week_start_monday p t tz) cutoff ≡ false
      → retains p tz cutoff [] r ≡ true
  unfolding should_retain_raw_packet any_of is_monday_in_tz week_start_monday
  seen_retained r t e monday since = rw e (ground (arith, monday, since))

  rows_recent :
      (h : Bytes) (rows : List RawPacket)
      → has_key raw_hash same same_iff h rows ≡ false
      → All (λ (r : RawPacket). r.packet_hash ≡ h → retains p tz cutoff [] r ≡ true) rows
  rows_recent h [] e = tt
  rows_recent h (r ∷ rows) e =
      let (other, rest) = any_of-false (λ (s : RawPacket). same s.packet_hash h) r rows e in
      (
        λ q. let found = (same_iff r.packet_hash h).1 q in cc (other, found),
        rows_recent h rows rest,
      )

  -- A hash that no packet has.
  pub no_raw-IsRecent : (h : Bytes) (db : Db) → has_raw h db ≡ false → IsRecent p tz cutoff h db
  no_raw-IsRecent h db = rows_recent h db.raw_packets

  -- Storing a packet of a Monday since the cutoff keeps a hash recent.
  pub insert_raw-IsRecent :
      (h : Bytes) (r : RawPacket) (t : Time) (db : Db)
      → r.observed_at ≡ t.unix
      → is_monday_in_tz p t tz ≡ true
      → before (week_start_monday p t tz) cutoff ≡ false
      → IsRecent p tz cutoff h db
      → IsRecent p tz cutoff h (insert_raw r db).1
  unfolding insert_raw
  insert_raw-IsRecent h r t db e monday since recent =
      elim (Bool-cases (has_raw r.packet_hash db)) [
        | inl old ↦ rw old recent
        | inr new ↦ rw new (
            All-snoc (λ (s : RawPacket). s.packet_hash ≡ h → retains p tz cutoff [] s ≡ true)
              db.raw_packets _ recent
              (λ q. seen_retained (record r { id = db.next_raw }) t e monday since))
      ]
