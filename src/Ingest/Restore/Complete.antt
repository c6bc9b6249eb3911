-- ===== src/Ingest/Restore/Complete.antt =====
-- A restore that nothing disturbs links every packet that is a check-in of a Monday.
use mesh_monday.Base.{
  ℕ, ◌≡◌, refl, ap, ◌∙◌, inl, inr, arith, if◌then◌else◌, true, Option, none, some, List, [], ◌∷◌,
  ◌++◌, Bool-cases, Result, ok, err, Bytes, same, same_iff, has_key, any_of, any_of-append, All,
}
use mesh_monday.Platform.{Platform}
use mesh_monday.Go.Time.{day_of}
use mesh_monday.Checkins.Text.{Candidate}
use mesh_monday.Checkins.Extract.{extract_from_packet}
use mesh_monday.Checkins.Weeks.{is_monday_in_tz, week_start_monday}
use mesh_monday.Meshcore.{Packet, DecodeError, decode_packet}
use mesh_monday.Storage.Schema.{
  RawPacket, Db, CheckinPacket, raw_hash, link_key, same_link, same_link_iff, has_raw,
}
use mesh_monday.Storage.Exec.{World, exec}
use mesh_monday.Storage.Statements.{insert_link_row}
use mesh_monday.Storage.Inserts.{insert_checkin_packet}
use mesh_monday.Storage.Restore.Quiet.{has_link, IsAhead, for_each-IsDone}
use mesh_monday.Ingest.Service.{Service}
use mesh_monday.Ingest.Restore.{
  RestoreCheckinPacketsResult, nothing_restored, observed, restore_link, restore_candidate,
  restore_packet, restore_row, restore_checkin_packets_from_raw,
}

-- The link that a stored packet is due: that of the check-in it holds, if it was observed on a Monday.
link_of_candidate : Platform → Service → RawPacket → Option Candidate → Option (ℕ × Bytes × Bytes)
link_of_candidate p s row none = none
link_of_candidate p s row (some c) =
    if is_monday_in_tz p (observed row) s.cfg.tz
    then some (day_of (week_start_monday p (observed row) s.cfg.tz), c.username, row.packet_hash)
    else none

pub link_of_packet :
    Platform → Service → RawPacket → Result DecodeError Packet → Option (ℕ × Bytes × Bytes)
link_of_packet p s row (err e) = none
link_of_packet p s row (ok packet) =
    link_of_candidate p s row
      (extract_from_packet p packet.payload_type packet.payload_hex s.channel_keys)

abbrev pub HasDue : Db → Option (ℕ × Bytes × Bytes) → Type 0
HasDue db none = Unit {0}
HasDue db (some k) = has_link k db ≡ true

abbrev pub IsLinked : Platform → Service → Db → RawPacket → Type 0
IsLinked p s db row = HasDue db (link_of_packet p s row (decode_packet row.payload_hex))

HasDue-IsAhead :
    (o : Option (ℕ × Bytes × Bytes)) (a : Db) (w : World) → IsAhead a w → HasDue a o → HasDue w.db o
HasDue-IsAhead none a w v h = tt
HasDue-IsAhead (some k) a w v h = v.links k h

has_link-snoc :
    (ls : List CheckinPacket) (l : CheckinPacket)
    → has_key link_key same_link same_link_iff (link_key l) (ls ++ l ∷ []) ≡ true
unfolding any_of
has_link-snoc ls l =
    rw any_of-append (ground (arith, (same_link_iff (link_key l) (link_key l)).1 refl))

has_raw-stored :
    (a : Db) (w : World) (h : Bytes) → IsAhead a w → has_raw h a ≡ true → has_raw h w.db ≡ true
has_raw-stored a w h v e = ap (λ rows. has_key raw_hash same same_iff h rows) v.packets ∙ e

insert_checkin_packet-IsAhead :
    (a : Db) (d : ℕ) (u h : Bytes) (t : ℕ) (w : World)
    → IsAhead a w
    → IsAhead a (insert_checkin_packet d u h t w).1
      × (has_raw h a ≡ true → has_link (d, u, h) (insert_checkin_packet d u h t w).1.db ≡ true)
unfolding insert_checkin_packet exec insert_link_row
insert_checkin_packet-IsAhead a d u h t w v = elim (Bool-cases (has_link (d, u, h) w.db)) [
  | inl old ↦
      rw (v.quiet, old) (record { quiet = refl; packets = v.packets; links = v.links }, λ e. old)
  | inr new ↦ elim (Bool-cases (has_raw h w.db)) [
    | inr orphan ↦
        rw (v.quiet, new, orphan)
          (
            record { quiet = refl; packets = v.packets; links = v.links },
            λ e. (let stored : has_raw h w.db ≡ true = has_raw-stored a w h v e in cc),
          )
    | inl parent ↦
        rw (v.quiet, new, parent)
          (
            record {
              quiet = refl;
              packets = v.packets;
              links = λ k e. rw any_of-append (ground (arith, v.links k e));
            },
            λ e. has_link-snoc w.db.checkin_packets _,
          )
  ]
]

module _ (p : Platform) (s : Service) (now : ℕ) where
  restore_candidate-IsAhead :
      (row : RawPacket) (o : Option Candidate) (r : RestoreCheckinPacketsResult) (w : World)
      → w.faults ≡ []
      → IsAhead w.db (restore_candidate p s now row r o w).1
  unfolding restore_candidate restore_link
  restore_candidate-IsAhead row none r w e = record { quiet = e; packets = refl; links = λ k l. l }
  restore_candidate-IsAhead row (some c) r w e =
      let here : IsAhead w.db w = record { quiet = e; packets = refl; links = λ k l. l } in
      elim (Bool-cases (is_monday_in_tz p (observed row) s.cfg.tz)) [
        | inl f ↦
            rw f (insert_checkin_packet-IsAhead w.db _ c.username row.packet_hash now w here).0
        | inr f ↦ rw f here
      ]

  restore_packet-IsAhead :
      (row : RawPacket) (d : Result DecodeError Packet) (r : RestoreCheckinPacketsResult)
      (w : World)
      → w.faults ≡ []
      → IsAhead w.db (restore_packet p s now row r d w).1
  unfolding restore_packet
  restore_packet-IsAhead row (err f) r w e = record { quiet = e; packets = refl; links = λ k l. l }
  restore_packet-IsAhead row (ok packet) r w e = restore_candidate-IsAhead row _ _ w e

  restore_candidate-HasDue :
      (row : RawPacket) (o : Option Candidate) (r : RestoreCheckinPacketsResult) (w : World)
      → w.faults ≡ []
      → has_raw row.packet_hash w.db ≡ true
      → HasDue (restore_candidate p s now row r o w).1.db (link_of_candidate p s row o)
  unfolding restore_candidate restore_link link_of_candidate
  restore_candidate-HasDue row none r w e stored = tt
  restore_candidate-HasDue row (some c) r w e stored =
      let here : IsAhead w.db w = record { quiet = e; packets = refl; links = λ k l. l } in
      elim (Bool-cases (is_monday_in_tz p (observed row) s.cfg.tz)) [
        | inl f ↦
            rw f (
              (insert_checkin_packet-IsAhead w.db _ c.username row.packet_hash now w here).1 stored)
        | inr f ↦ rw f tt
      ]

  restore_packet-IsLinked :
      (row : RawPacket) (d : Result DecodeError Packet) (r : RestoreCheckinPacketsResult)
      (w : World)
      → w.faults ≡ []
      → has_raw row.packet_hash w.db ≡ true
      → HasDue (restore_packet p s now row r d w).1.db (link_of_packet p s row d)
  unfolding restore_packet link_of_packet
  restore_packet-IsLinked row (err f) r w e stored = tt
  restore_packet-IsLinked row (ok packet) r w e stored = restore_candidate-HasDue row _ _ w e stored

-- If no statement fails, the restore ends without an error, and every stored packet that decodes, holds
-- a check-in and was observed on a Monday has its link; the packets stay as they are, and no link that
-- was there is lost.
pub restore_checkin_packets_from_raw-IsLinked :
    (p : Platform) (s : Service) (now : ℕ) (w : World)
    → w.faults ≡ []
    → ((restore_checkin_packets_from_raw p s now w).0.1 ≡ none)
      × (IsAhead w.db (restore_checkin_packets_from_raw p s now w).1
          × All (IsLinked p s (restore_checkin_packets_from_raw p s now w).1.db) w.db.raw_packets)
unfolding restore_checkin_packets_from_raw restore_row
restore_checkin_packets_from_raw-IsLinked p s now w e =
    for_each-IsDone (restore_row p s now) (λ row db. IsLinked p s db row) (λ row r w. refl)
      (λ row r w e. restore_packet-IsAhead p s now row (decode_packet row.payload_hex) _ w e)
      (λ row r w e stored.
        restore_packet-IsLinked p s now row (decode_packet row.payload_hex) _ w e stored)
      (λ row a w v l. HasDue-IsAhead _ a w v l) nothing_restored w e
