-- ===== src/Ingest/Restore/Adds.antt =====
-- What the packets that a restore goes through add to its counters and to the links.
use mesh_monday.Base.{
  ℕ, ◌+◌, ◌≤◌, ◌≡◌, refl, List, [], ◌∷◌, not, ◌&&◌, inl, inr, arith, Bool, true, false, Option,
  none, some, length, length-append, Bool-cases, Option-cases, Result, ok, err, Bytes, has_key,
}
use mesh_monday.Platform.{Platform}
use mesh_monday.Checkins.Text.{Candidate}
use mesh_monday.Checkins.Extract.{extract_from_packet}
use mesh_monday.Checkins.Weeks.{is_monday_in_tz}
use mesh_monday.Meshcore.{Packet, DecodeError, decode_packet}
use mesh_monday.Storage.Schema.{RawPacket, Db, link_key, same_link, same_link_iff, has_raw}
use mesh_monday.Storage.Exec.{SqlError, World, exec, next_fault}
use mesh_monday.Storage.Statements.{insert_link_row}
use mesh_monday.Storage.Inserts.{rows_affected, insert_checkin_packet}
use mesh_monday.Ingest.Service.{Service}
use mesh_monday.Ingest.Restore.{
  RestoreCheckinPacketsResult, observed, count_link, restore_link, restore_candidate,
  restore_packet, restore_row,
}

abbrev pub bit : Bool → ℕ
bit true = 1
bit false = 0

-- How many of the packets pass a test.
pub count : (RawPacket → Bool) → List RawPacket → ℕ
count test [] = 0
count test (row ∷ rows) = bit (test row) + count test rows

abbrev pub is_decoded : Result DecodeError Packet → Bool
is_decoded (ok packet) = true
is_decoded (err e) = false

abbrev pub is_found : Option Candidate → Bool
is_found (some c) = true
is_found none = false

abbrev pub decodes : RawPacket → Bool
decodes row = is_decoded (decode_packet row.payload_hex)

module _ (p : Platform) (s : Service) where
  -- The check-in that a packet holds, if it is decoded and holds one.
  abbrev pub candidate_in : Result DecodeError Packet → Option Candidate
  candidate_in (err e) = none
  candidate_in (ok packet) =
      extract_from_packet p packet.payload_type packet.payload_hex s.channel_keys

  abbrev pub checks_in : RawPacket → Bool
  checks_in row = is_found (candidate_in (decode_packet row.payload_hex))

  abbrev pub on_monday : RawPacket → Bool
  on_monday row = is_monday_in_tz p (observed row) s.cfg.tz

-- The links that an insert adds: one, if it reports one.
abbrev added_by : Result SqlError Bool → ℕ
added_by (ok true) = 1
added_by (ok false) = 0
added_by (err e) = 0

insert_checkin_packet-length :
    (d : ℕ) (u h : Bytes) (t : ℕ) (w : World)
    → length (insert_checkin_packet d u h t w).1.db.checkin_packets
      ≡ length w.db.checkin_packets + added_by (insert_checkin_packet d u h t w).0
unfolding insert_checkin_packet rows_affected exec insert_link_row
insert_checkin_packet-length d u h t w = elim (Option-cases (next_fault w.faults).0) [
  | inr (f, e) ↦ rw e (omega arith)
  | inl e ↦
      elim (Bool-cases (has_key link_key same_link same_link_iff (d, u, h) w.db.checkin_packets)) [
        | inl old ↦ rw (e, old) (omega arith)
        | inr new ↦ elim (Bool-cases (has_raw h w.db)) [
          | inl parent ↦ rw (e, new, parent) (rw length-append (omega arith))
          | inr orphan ↦ rw (e, new, orphan) (omega arith)
        ]
      ]
]

-- What packets add to the counters and to the links, so many of each stage.
pub record Adds (seen decoded errors found monday : ℕ) (r : RestoreCheckinPacketsResult) (a : Db)
    (q : RestoreCheckinPacketsResult) (b : Db) : Type 0 where
  pub scanned_more : q.raw_scanned ≡ r.raw_scanned + seen
  pub decoded_more : q.decoded ≡ r.decoded + decoded
  pub errors_more : q.decode_errors ≡ r.decode_errors + errors
  pub found_more : q.checkins_found ≡ r.checkins_found + found
  pub monday_more : q.monday_checkins ≡ r.monday_checkins + monday
  pub linked_more :
      q.links_inserted + q.insert_link_errors ≤ r.links_inserted + r.insert_link_errors + monday
  pub links_more :
      length b.checkin_packets + r.links_inserted ≡ length a.checkin_packets + q.links_inserted

module _ (p : Platform) (s : Service) (now : ℕ) where
  -- The counters after a check-in of a Monday was found in a packet.
  abbrev on_the_way : RestoreCheckinPacketsResult → RestoreCheckinPacketsResult
  on_the_way r = record r {
    raw_scanned = r.raw_scanned + 1;
    decoded = r.decoded + 1;
    checkins_found = r.checkins_found + 1;
    monday_checkins = r.monday_checkins + 1;
  }

  count_link-Adds :
      (r : RestoreCheckinPacketsResult) (x : Result SqlError Bool) (a b : Db)
      → length b.checkin_packets ≡ length a.checkin_packets + added_by x
      → Adds 1 1 0 1 1 r a (count_link (on_the_way r) x) b
  unfolding count_link
  count_link-Adds r (ok true) a b e = omega arith
  count_link-Adds r (ok false) a b e = omega arith
  count_link-Adds r (err f) a b e = omega arith

  restore_candidate-Adds :
      (row : RawPacket) (o : Option Candidate) (r : RestoreCheckinPacketsResult) (w : World)
      → let counted : RestoreCheckinPacketsResult = record r {
        raw_scanned = r.raw_scanned + 1;
        decoded = r.decoded + 1;
      } in
        Adds 1 1 0
          (bit (is_found o))
          (bit (is_found o && on_monday p s row))
          r
          w.db
          (restore_candidate p s now row counted o w).0
          (restore_candidate p s now row counted o w).1.db
  unfolding restore_candidate restore_link
  restore_candidate-Adds row none r w = omega arith
  restore_candidate-Adds row (some c) r w =
      elim (Bool-cases (is_monday_in_tz p (observed row) s.cfg.tz)) [
        | inl e ↦ rw e (
            count_link-Adds r _ w.db _
              (insert_checkin_packet-length _ c.username row.packet_hash now w))
        | inr e ↦ rw e (omega arith)
      ]

  restore_packet-Adds :
      (row : RawPacket) (d : Result DecodeError Packet) (r : RestoreCheckinPacketsResult)
      (w : World)
      → let counted : RestoreCheckinPacketsResult = record r { raw_scanned = r.raw_scanned + 1 } in
        let found = is_found (candidate_in p s d) in
        Adds 1
          (bit (is_decoded d))
          (bit (not (is_decoded d)))
          (bit found)
          (bit (found && on_monday p s row))
          r
          w.db
          (restore_packet p s now row counted d w).0
          (restore_packet p s now row counted d w).1.db
  unfolding restore_packet
  restore_packet-Adds row (err e) r w = omega arith
  restore_packet-Adds row (ok packet) r w =
      restore_candidate-Adds row
        (extract_from_packet p packet.payload_type packet.payload_hex s.channel_keys) r w

  -- What the packets that were handed over add.
  abbrev pub Tracks :
      List RawPacket → RestoreCheckinPacketsResult → Db → RestoreCheckinPacketsResult → Db → Type 0
  Tracks seen =
      Adds (length seen) (count decodes seen) (count (λ row. not (decodes row)) seen)
        (count (checks_in p s) seen) (count (λ row. checks_in p s row && on_monday p s row) seen)

  Adds-both :
      {n d e f m n' d' e' f' m' : ℕ} (r q t : RestoreCheckinPacketsResult) (a b c : Db)
      → Adds n d e f m r a q b
      → Adds n' d' e' f' m' q b t c
      → Adds (n + n') (d + d') (e + e') (f + f') (m + m') r a t c
  Adds-both r q t a b c h k = record {
    scanned_more = omega (arith, h.scanned_more, k.scanned_more);
    decoded_more = omega (arith, h.decoded_more, k.decoded_more);
    errors_more = omega (arith, h.errors_more, k.errors_more);
    found_more = omega (arith, h.found_more, k.found_more);
    monday_more = omega (arith, h.monday_more, k.monday_more);
    linked_more = omega (arith, h.linked_more, k.linked_more);
    links_more = omega (arith, h.links_more, k.links_more);
  }

  pub further-Tracks :
      (row : RawPacket) (rows : List RawPacket) (r : RestoreCheckinPacketsResult) (w : World)
      (q : RestoreCheckinPacketsResult) (d : Db)
      → Tracks rows (restore_row p s now row r w).0.0 (restore_row p s now row r w).1.db q d
      → Tracks (row ∷ rows) r w.db q d
  unfolding restore_row count
  further-Tracks row rows r w q d h =
      let k =
        Adds-both r _ q w.db _ d (restore_packet-Adds row (decode_packet row.payload_hex) r w) h in
      record {
        scanned_more = omega (arith, k.scanned_more);
        decoded_more = k.decoded_more;
        errors_more = k.errors_more;
        found_more = k.found_more;
        monday_more = k.monday_more;
        linked_more = k.linked_more;
        links_more = k.links_more;
      }

  pub nothing-Tracks : (r : RestoreCheckinPacketsResult) (db : Db) → Tracks [] r db r db
  unfolding count
  nothing-Tracks r db = omega arith

  pub row_none_fails :
      (row : RawPacket) (r : RestoreCheckinPacketsResult) (w : World)
      → (restore_row p s now row r w).0.1 ≡ none
  unfolding restore_row
  row_none_fails row r w = refl
