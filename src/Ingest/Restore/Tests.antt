-- ===== src/Ingest/Restore/Tests.antt =====
-- A stored packet with the check-in of Monday 4 May 2026, whose link was lost.
use mesh_monday.Base.{◌+◌, ◌*◌, ◌≡◌, refl, none, [], ◌∷◌, codes, All, arith}
use mesh_monday.Checkins.Tests.{plain}
use mesh_monday.Config.Tests.{test_config}
use mesh_monday.Storage.Schema.{RawPacket, empty_db, IsConsistent}
use mesh_monday.Storage.Exec.{World}
use mesh_monday.Storage.Restore.Quiet.{IsAhead}
use mesh_monday.Ingest.Service.{Service}
use mesh_monday.Ingest.Restore.{restore_checkin_packets_from_raw}
use mesh_monday.Ingest.Restore.Tally.{IsTally, restore_checkin_packets_from_raw-IsTally}
use mesh_monday.Ingest.Restore.Links.{OnlyLinks, restore_checkin_packets_from_raw-OnlyLinks}
use mesh_monday.Ingest.Restore.Complete.{IsLinked, restore_checkin_packets_from_raw-IsLinked}

abbrev service : Service
service = record { cfg = test_config; channel_keys = [] }

abbrev packet : RawPacket
packet = record {
  id = 1;
  packet_hash = codes "aa";
  topic = [];
  iata = codes "SEA";
  device_public_key = [];
  payload_hex = codes "110041766572793a2068656c6c6f206d65736820236d6573686d6f6e646179";
  payload_type = 4;
  payload_type_name = [];
  route_type = 1;
  route_type_name = [];
  path_len = 0;
  observed_at = 739739 * 86400 + 43200;
  received_at = 739739 * 86400 + 43200;
}

abbrev store : World
store = record {
  db = record empty_db { raw_packets = packet ∷ []; next_raw = 2 };
  faults = [];
  waits = [];
}

store-IsConsistent : IsConsistent store.db
store-IsConsistent = omega arith

restore_checkin_packets_from_raw-IsTally_example :
    IsTally plain service store.db (restore_checkin_packets_from_raw plain service 7 store)
restore_checkin_packets_from_raw-IsTally_example =
    restore_checkin_packets_from_raw-IsTally plain service 7 store

restore_checkin_packets_from_raw-OnlyLinks_example :
    OnlyLinks store.db (restore_checkin_packets_from_raw plain service 7 store).1.db
    × IsConsistent (restore_checkin_packets_from_raw plain service 7 store).1.db
restore_checkin_packets_from_raw-OnlyLinks_example =
    restore_checkin_packets_from_raw-OnlyLinks plain service 7 store store-IsConsistent

restore_checkin_packets_from_raw-IsLinked_example :
    ((restore_checkin_packets_from_raw plain service 7 store).0.1 ≡ none)
    × (IsAhead store.db (restore_checkin_packets_from_raw plain service 7 store).1
        × All
            (IsLinked plain service (restore_checkin_packets_from_raw plain service 7 store).1.db)
            store.db.raw_packets)
restore_checkin_packets_from_raw-IsLinked_example =
    restore_checkin_packets_from_raw-IsLinked plain service 7 store refl
