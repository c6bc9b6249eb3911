-- ===== src/Storage/Retention/Tests.antt =====
-- A store with a packet of a Wednesday, one of the same day that a check-in needs, and one of a Monday
-- after the cutoff, as in internal/storage/retention_test.go.
use mesh_monday.Base.{
  ℕ, ◌+◌, ◌*◌, ◌≡◌, refl, [], ◌∷◌, Bytes, codes, none, some, arith, any_of, keep, same, length,
}
use mesh_monday.Go.Time.{Time, utc, weekday, day_of, local_seconds, date, instant_of, sub_days}
use mesh_monday.Checkins.Tests.{plain}
use mesh_monday.Checkins.Weeks.{is_monday_in_tz, week_start_monday}
use mesh_monday.Storage.Schema.{RawPacket, Checkin, Db, empty_db, IsConsistent}
use mesh_monday.Storage.Exec.{World, exec, wait}
use mesh_monday.Storage.Numbering.{IsNumbered}
use mesh_monday.Storage.Retry.{retry}
use mesh_monday.Storage.Retention.{
  Deletion, deleted, prune_raw_packets, protected_packet_hashes, retained, should_retain_raw_packet,
  prune_loop, scan_raw_packet_batch, to_delete, last_id, delete_raw_packet_ids, delete_chunk,
}
use mesh_monday.Storage.Retention.Spares.{Spares}
use mesh_monday.Storage.Retention.Effects.{
  is_kept, prune_raw_packets_ends, prune_raw_packets-Spares, prune_raw_packets-keep,
}
use mesh_monday.Storage.Statements.{delete_raw}

abbrev pub packet : ℕ → Bytes → ℕ → RawPacket
packet id hash day = record {
  id = id;
  packet_hash = hash;
  topic = [];
  iata = [];
  device_public_key = [];
  payload_hex = [];
  payload_type = 5;
  payload_type_name = [];
  route_type = 1;
  route_type_name = [];
  path_len = 0;
  observed_at = day * 86400 + 1000;
  received_at = day * 86400 + 1000;
}

abbrev pub checkin : Checkin
checkin = record {
  id = 1;
  packet_hash = codes "bb";
  username = codes "avery";
  display_name = codes "Avery";
  message = codes "#meshmonday";
  iata = codes "SEA";
  checkin_date = 739622;
  week_start = 739620;
  created_at = 1;
}

-- Day 739739 is Monday 4 May 2026.
abbrev pub three_packets : Db
three_packets = record empty_db {
  raw_packets =
      packet 1 (codes "aa") 739741
      ∷ packet 2 (codes "bb") 739741
      ∷ packet 5 (codes "cc") 739739
      ∷ [];
  checkins = checkin ∷ [];
  next_raw = 6;
}

abbrev pub store : World
store = record { db = three_packets; faults = []; waits = [] }

abbrev pub now : Time
now = record { unix = 739742 * 86400; zone = utc }

pub store-IsNumbered : IsNumbered store.db
store-IsNumbered = record { ascending = omega arith; bounded = omega arith; next_pos = omega arith }

pub three_packets-IsConsistent : IsConsistent three_packets
unfolding any_of same
three_packets-IsConsistent = record {
  raw_unique = ground arith;
  checkin_unique = ground arith;
  week_user_unique = ground arith;
  observation_unique = ground arith;
  link_unique = ground arith;
  checkin_parent = (refl, tt);
  observation_parent = tt;
  link_parent = tt;
}

one_deleted : (prune_raw_packets plain now (codes "UTC") 1 store).0 ≡ some (deleted 1 none)
unfolding prune_raw_packets protected_packet_hashes retained should_retain_raw_packet prune_loop
    scan_raw_packet_batch to_delete last_id delete_raw_packet_ids delete_chunk exec wait retry
    delete_raw any_of keep same is_monday_in_tz week_start_monday weekday day_of local_seconds date
    instant_of sub_days
one_deleted = refl

prune_raw_packets_ends_example :
    (d : Deletion) × ((prune_raw_packets plain now (codes "UTC") 1 store).0 ≡ some d)
prune_raw_packets_ends_example =
    prune_raw_packets_ends plain now (codes "UTC") 1 store store-IsNumbered

prune_raw_packets-Spares_example :
    Spares
      (is_kept plain now (codes "UTC") 1 store)
      store.db
      (prune_raw_packets plain now (codes "UTC") 1 store).1.db
    × IsNumbered (prune_raw_packets plain now (codes "UTC") 1 store).1.db
prune_raw_packets-Spares_example =
    prune_raw_packets-Spares plain now (codes "UTC") 1 store store-IsNumbered

prune_raw_packets-keep_example :
    ((prune_raw_packets plain now (codes "UTC") 1 store).1.db.raw_packets
      ≡ keep (is_kept plain now (codes "UTC") 1 store) store.db.raw_packets)
    × (1 + length (keep (is_kept plain now (codes "UTC") 1 store) store.db.raw_packets) ≡ 3)
prune_raw_packets-keep_example =
    prune_raw_packets-keep plain now (codes "UTC") 1 store store-IsNumbered 1 one_deleted
