-- ===== src/Ingest/Service/Tests.antt =====
-- The message of internal/ingest/service_integration_test.go, on an empty store and once more.
use mesh_monday.Base.{◌+◌, ◌*◌, ◌≡◌, refl, true, none, [], ◌∷◌, Bytes, codes, ok, same, any_of}
use mesh_monday.Go.Time.{Time, utc, weekday, day_of, local_seconds, date, instant_of, sub_days}
use mesh_monday.Checkins.Weeks.{week_start_monday}
use mesh_monday.Storage.Retention.Overlap.{IsReached, starting, start}
use mesh_monday.Ingest.Service.Overlap.{handle_message-IsReached}
use mesh_monday.Go.Text.{split, to_upper, has_prefix, trim_prefix, to_lower}
use mesh_monday.Go.Trim.{trim_space}
use mesh_monday.Go.Hex.{decode_string, encode_to_string}
use mesh_monday.Meshcore.{Packet, decode_packet, hash_packet}
use mesh_monday.Checkins.Tests.{plain}
use mesh_monday.Storage.Schema.{empty_db, IsConsistent, IsConsistent-empty, has_raw}
use mesh_monday.Storage.Exec.{World}
use mesh_monday.Ingest.Message.{parse_topic, decode_incoming_envelope}
use mesh_monday.Ingest.Service.{
  Service, new_service, Accepted, Clock, accept, unwrap, decode_body, max_packet_hex_chars,
  max_observer_chars, raw_of, handle_message,
}
use mesh_monday.Config.Tests.{test_config}
use mesh_monday.Config.Validate.Tests.{production_config, accepted as production_accepted}
use mesh_monday.Base.Int.{pos}
use mesh_monday.Ingest.Service.Limits.{new_service_limits}
use mesh_monday.Ingest.Service.Consistency.{handle_message-IsConsistent}
use mesh_monday.Ingest.Service.Effects.{SameRecords, handle_message_duplicate}

abbrev monday_noon : Time
monday_noon = record { unix = 739739 * 86400 + 43200; zone = utc }

abbrev test_service : Service
test_service = record { cfg = test_config; channel_keys = [] }

abbrev test_clock : Clock
test_clock = record { received_at = 1; linked_at = 2; created_at = 3 }

abbrev topic : Bytes
topic = codes "meshcore/SEA/dev1/packets"

abbrev body : Bytes
body = codes "110041766572793a206869"

abbrev empty_world : World
empty_world = record { db = empty_db; faults = []; waits = [] }

handle_message-IsConsistent_example :
    IsConsistent
      (handle_message plain test_service topic body monday_noon test_clock empty_world).db
handle_message-IsConsistent_example =
    handle_message-IsConsistent plain test_service topic body monday_noon test_clock empty_world
      IsConsistent-empty

-- The packet of the message.
abbrev test_packet : Packet
test_packet = record {
  header = 0x11;
  payload_version = 0;
  payload_type = 4;
  payload_type_name = codes "ADVERT";
  route_type = 1;
  route_type_name = codes "FLOOD";
  transport_codes = none;
  path_len = 0;
  bytes_per_hop = 1;
  path_byte_length = 0;
  path = [];
  path_hex = [];
  payload_hex = codes "41766572793a206869";
  payload_bytes = codes "Avery: hi";
}

abbrev accepted : Accepted
accepted = record {
  topic = topic;
  iata = codes "SEA";
  device_key = codes "dev1";
  packet_hex = body;
  observer_key = codes "dev1";
  packet = test_packet;
}

accept-body : accept plain test_service topic body ≡ ok accepted
unfolding accept unwrap decode_body max_packet_hex_chars max_observer_chars parse_topic
    decode_incoming_envelope decode_packet split to_upper has_prefix trim_prefix trim_space
    decode_string same encode_to_string
accept-body = refl

-- A store that holds the packet already.
abbrev seen_world : World
seen_world = record empty_world {
  db = record empty_db { raw_packets = raw_of plain accepted monday_noon test_clock ∷ [] };
}

seen_stored : has_raw (hash_packet plain body) seen_world.db ≡ true
unfolding hash_packet encode_to_string same to_lower trim_space any_of
seen_stored = refl

handle_message_duplicate_example :
    SameRecords seen_world.db
      (handle_message plain test_service topic body monday_noon test_clock seen_world).db
handle_message_duplicate_example =
    handle_message_duplicate plain test_service topic body accepted monday_noon test_clock
      seen_world accept-body seen_stored

production_limits :
    (pos (max_packet_hex_chars (new_service plain production_config)) ≡ pos 8192)
    × (pos (max_observer_chars (new_service plain production_config)) ≡ pos 64)
production_limits = new_service_limits plain production_config production_accepted

-- The Monday before.
abbrev cutoff : Time
cutoff = record { unix = 739732 * 86400; zone = utc }

handle_message-IsReached_example :
    IsReached plain
      (codes "UTC")
      cutoff
      empty_db
      starting
      (handle_message plain test_service topic body monday_noon test_clock empty_world).db
unfolding week_start_monday weekday day_of local_seconds date instant_of sub_days
handle_message-IsReached_example =
    handle_message-IsReached plain test_service cutoff empty_db starting monday_noon refl topic body
      test_clock empty_world start
