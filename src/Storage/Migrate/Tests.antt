-- ===== src/Storage/Migrate/Tests.antt =====
-- Two check-ins of one user in one week, of two packets, as an older version could store them.
use mesh_monday.Base.{
  ◌≡◌, ◌⊎◌, refl, none, some, [], ◌∷◌, Bytes, codes, ℕ, arith, keep, any_of, same,
}
use mesh_monday.Storage.Schema.{RawPacket, Checkin, Db, empty_db, IsConsistent}
use mesh_monday.Storage.Exec.{World, fault}
use mesh_monday.Storage.Migrate.{migrate, is_canonical}
use mesh_monday.Storage.Migrate.Backfill.{IsOlder}
use mesh_monday.Storage.Migrate.Upgrade.{IsUpgraded, migrate-IsConsistent, migrate-IsUpgraded}

abbrev packet : ℕ → Bytes → RawPacket
packet id hash = record {
  id = id;
  packet_hash = hash;
  topic = [];
  iata = codes "SEA";
  device_public_key = [];
  payload_hex = [];
  payload_type = 5;
  payload_type_name = [];
  route_type = 1;
  route_type_name = [];
  path_len = 0;
  observed_at = 1;
  received_at = 1;
}

abbrev checkin : ℕ → Bytes → Checkin
checkin id hash = record {
  id = id;
  packet_hash = hash;
  username = codes "avery";
  display_name = codes "Avery";
  message = codes "#meshmonday";
  iata = codes "SEA";
  checkin_date = 739739;
  week_start = 739739;
  created_at = 1;
}

abbrev old_db : Db
old_db = record empty_db {
  raw_packets = packet 1 (codes "a") ∷ packet 2 (codes "b") ∷ [];
  checkins = checkin 1 (codes "a") ∷ checkin 2 (codes "b") ∷ [];
  next_raw = 3;
  next_checkin = 3;
}

abbrev old_store : World
old_store = record { db = old_db; faults = []; waits = [] }

old_db-IsOlder : IsOlder old_db
unfolding any_of same
old_db-IsOlder = record {
  ids = omega arith;
  raw_unique = ((ground arith, tt), (tt, tt));
  checkin_unique = ((ground arith, tt), (tt, tt));
  observation_unique = tt;
  link_unique = tt;
  checkin_parent = (refl, (refl, tt));
  observation_parent = tt;
  link_parent = tt;
}

first_stays : keep (is_canonical old_db.checkins) old_db.checkins ≡ checkin 1 (codes "a") ∷ []
unfolding keep is_canonical any_of same
first_stays = refl

-- The index cannot be created.
abbrev disk_full : World
disk_full = record old_store {
  faults = none ∷ some (fault (codes "database or disk is full")) ∷ [];
}

migrate-IsConsistent_example :
    ((migrate disk_full).1.db ≡ old_db) ⊎ IsConsistent (migrate disk_full).1.db
migrate-IsConsistent_example = migrate-IsConsistent disk_full old_db-IsOlder

migrate-IsUpgraded_example : IsUpgraded old_db ((migrate old_store).0, (migrate old_store).1.db)
migrate-IsUpgraded_example = migrate-IsUpgraded old_store old_db-IsOlder refl
