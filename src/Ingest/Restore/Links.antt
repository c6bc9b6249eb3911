-- ===== src/Ingest/Restore/Links.antt =====
-- What a restore does to the store.
use mesh_monday.Base.{
  ℕ, ◌≡◌, refl, inl, inr, Option, none, some, Bool-cases, Result, ok, err, Bytes, has_key,
}
use mesh_monday.Platform.{Platform}
use mesh_monday.Checkins.Text.{Candidate}
use mesh_monday.Checkins.Weeks.{is_monday_in_tz}
use mesh_monday.Meshcore.{Packet, DecodeError, decode_packet}
use mesh_monday.Storage.Schema.{
  RawPacket, Db, CheckinPacket, IsConsistent, link_key, same_link, same_link_iff, has_raw,
}
use mesh_monday.Storage.Exec.{World}
use mesh_monday.Storage.Keeps.{exec-Keeps, IsConsistent-IsInvariant, insert_checkin_packet-Keeps}
use mesh_monday.Storage.Statements.{insert_link_row}
use mesh_monday.Storage.Inserts.{insert_checkin_packet}
use mesh_monday.Storage.Restore.Holds.{for_each-Holds}
use mesh_monday.Ingest.Service.{Service}
use mesh_monday.Ingest.Restore.{
  RestoreCheckinPacketsResult, nothing_restored, observed, restore_link, restore_candidate,
  restore_packet, restore_row, restore_checkin_packets_from_raw,
}

-- What every insert of a link keeps, the callback keeps.
module _ (P : Db → Type 0)
    (keep : (d : ℕ) (u h : Bytes) (t : ℕ) (w : World)
      → P w.db
      → P (insert_checkin_packet d u h t w).1.db)
    (p : Platform) (s : Service) (now : ℕ) where
  restore_candidate-Keeps :
      (row : RawPacket) (o : Option Candidate) (r : RestoreCheckinPacketsResult) (w : World)
      → P w.db
      → P (restore_candidate p s now row r o w).1.db
  unfolding restore_candidate restore_link
  restore_candidate-Keeps row none r w h = h
  restore_candidate-Keeps row (some c) r w h =
      elim (Bool-cases (is_monday_in_tz p (observed row) s.cfg.tz)) [
        | inl e ↦ rw e (keep _ c.username row.packet_hash now w h)
        | inr e ↦ rw e h
      ]

  restore_packet-Keeps :
      (row : RawPacket) (d : Result DecodeError Packet) (r : RestoreCheckinPacketsResult)
      (w : World)
      → P w.db
      → P (restore_packet p s now row r d w).1.db
  unfolding restore_packet
  restore_packet-Keeps row (err e) r w h = h
  restore_packet-Keeps row (ok packet) r w h = restore_candidate-Keeps row _ _ w h

  pub restore-Keeps : (w : World) → P w.db → P (restore_checkin_packets_from_raw p s now w).1.db
  unfolding restore_checkin_packets_from_raw restore_row
  restore-Keeps w h =
      for_each-Holds (λ r db. P db) (restore_row p s now)
        (λ row r w' k. restore_packet-Keeps row (decode_packet row.payload_hex) _ w' k)
        nothing_restored w h

-- `b` is `a` but for the links.
abbrev pub OnlyLinks : Db → Db → Type 0
OnlyLinks a b = b ≡ record a { checkin_packets = b.checkin_packets; next_link = b.next_link }

insert_link_row-OnlyLinks :
    (a : Db) (l : CheckinPacket) (db : Db) → OnlyLinks a db → OnlyLinks a (insert_link_row l db).1
unfolding insert_link_row
insert_link_row-OnlyLinks a l db h =
    elim (Bool-cases (has_key link_key same_link same_link_iff (link_key l) db.checkin_packets)) [
      | inl old ↦ rw old h
      | inr new ↦ elim (Bool-cases (has_raw l.packet_hash db)) [
        | inr orphan ↦ rw (new, orphan) h
        | inl parent ↦ rw (new, parent) (cc)
      ]
    ]

links :
    (a : Db) (d : ℕ) (u h : Bytes) (t : ℕ) (w : World)
    → OnlyLinks a w.db
    → OnlyLinks a (insert_checkin_packet d u h t w).1.db
unfolding insert_checkin_packet
links a d u h t w k =
    exec-Keeps (OnlyLinks a) (insert_link_row _) (insert_link_row-OnlyLinks a _) w k

-- Whatever fails, a restore changes nothing but links, and a consistent store stays consistent.
pub restore_checkin_packets_from_raw-OnlyLinks :
    (p : Platform) (s : Service) (now : ℕ) (w : World)
    → IsConsistent w.db
    → OnlyLinks w.db (restore_checkin_packets_from_raw p s now w).1.db
      × IsConsistent (restore_checkin_packets_from_raw p s now w).1.db
restore_checkin_packets_from_raw-OnlyLinks p s now w v = (
  restore-Keeps (OnlyLinks w.db) (links w.db) p s now w refl,
  restore-Keeps IsConsistent
      (λ d u h t w. insert_checkin_packet-Keeps IsConsistent IsConsistent-IsInvariant d u h t w) p s
      now w v,
)
