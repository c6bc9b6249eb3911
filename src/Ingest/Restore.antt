-- ===== src/Ingest/Restore.antt =====
-- `RestoreCheckinPacketsFromRaw` of internal/ingest/service.go: the links of check-ins to packets are
-- built anew from the stored packets. An insert is not tried again here.
pub mod Adds
pub mod Tally
pub mod Links
pub mod Complete
mod Tests
use mesh_monday.Base.{
  ℕ, ◌+◌, Bool, true, false, not, List, [], ◌∷◌, Option, none, some, Bytes, if◌then◌else◌, Result,
  ok, err,
}
use mesh_monday.Platform.{Platform}
use mesh_monday.Go.Time.{Time, utc, day_of}
use mesh_monday.Meshcore.{Packet, DecodeError, decode_packet}
use mesh_monday.Checkins.Text.{Candidate}
use mesh_monday.Checkins.Extract.{extract_from_packet}
use mesh_monday.Checkins.Weeks.{is_monday_in_tz, week_start_monday}
use mesh_monday.Storage.Schema.{RawPacket}
use mesh_monday.Storage.Exec.{SqlError, World}
use mesh_monday.Storage.Inserts.{insert_checkin_packet}
use mesh_monday.Storage.Restore.{Scanned, Callback, for_each_raw_packet_for_restore}
use mesh_monday.Ingest.Service.{Service}

pub record RestoreCheckinPacketsResult : Type 0 where
  pub raw_scanned : ℕ
  pub decoded : ℕ
  pub checkins_found : ℕ
  pub monday_checkins : ℕ
  pub links_inserted : ℕ
  pub decode_errors : ℕ
  pub insert_link_errors : ℕ

abbrev pub nothing_restored : RestoreCheckinPacketsResult
nothing_restored = record {
  raw_scanned = 0;
  decoded = 0;
  checkins_found = 0;
  monday_checkins = 0;
  links_inserted = 0;
  decode_errors = 0;
  insert_link_errors = 0;
}

-- What an insert counts as.
count_link : RestoreCheckinPacketsResult → Result SqlError Bool → RestoreCheckinPacketsResult
count_link r (err e) = record r { insert_link_errors = r.insert_link_errors + 1 }
count_link r (ok true) = record r { links_inserted = r.links_inserted + 1 }
count_link r (ok false) = r

-- A stored time is read back in UTC.
abbrev pub observed : RawPacket → Time
observed row = record { unix = row.observed_at; zone = utc }

restore_link :
    Platform
    → Service
    → ℕ
    → RawPacket
    → Candidate
    → RestoreCheckinPacketsResult
    → World
    → RestoreCheckinPacketsResult × World
unfolding count_link
restore_link p s now row candidate r w =
    let week_start = day_of (week_start_monday p (observed row) s.cfg.tz) in
    let (inserted, w') =
      insert_checkin_packet week_start candidate.username row.packet_hash now w in
    (count_link (record r { monday_checkins = r.monday_checkins + 1 }) inserted, w')

restore_candidate :
    Platform
    → Service
    → ℕ
    → RawPacket
    → RestoreCheckinPacketsResult
    → Option Candidate
    → World
    → RestoreCheckinPacketsResult × World
unfolding restore_link
restore_candidate p s now row r none w = (r, w)
restore_candidate p s now row r (some candidate) w =
    let found = record r { checkins_found = r.checkins_found + 1 } in
    if not (is_monday_in_tz p (observed row) s.cfg.tz)
    then (found, w)
    else restore_link p s now row candidate found w

restore_packet :
    Platform
    → Service
    → ℕ
    → RawPacket
    → RestoreCheckinPacketsResult
    → Result DecodeError Packet
    → World
    → RestoreCheckinPacketsResult × World
unfolding restore_candidate
restore_packet p s now row r (err e) w = (record r { decode_errors = r.decode_errors + 1 }, w)
restore_packet p s now row r (ok packet) w =
    restore_candidate p s now row (record r { decoded = r.decoded + 1 })
      (extract_from_packet p packet.payload_type packet.payload_hex s.channel_keys) w

-- The callback, which never ends the scan.
pub restore_row : Platform → Service → ℕ → Callback RestoreCheckinPacketsResult
unfolding restore_packet
restore_row p s now row r w =
    let scanned = record r { raw_scanned = r.raw_scanned + 1 } in
    let (r', w') = restore_packet p s now row scanned (decode_packet row.payload_hex) w in
    ((r', none), w')

-- `RestoreCheckinPacketsFromRaw`
pub restore_checkin_packets_from_raw :
    Platform → Service → ℕ → World → Scanned RestoreCheckinPacketsResult
unfolding restore_row
restore_checkin_packets_from_raw p s now w =
    for_each_raw_packet_for_restore (restore_row p s now) nothing_restored w
