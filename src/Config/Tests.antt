-- ===== src/Config/Tests.antt =====
-- A configuration with a hashtag channel and a private key that is there twice.
use mesh_monday.Base.{false, [], ◌∷◌, codes, All}
use mesh_monday.Base.Int.{pos}
use mesh_monday.Go.Time.{utc}
use mesh_monday.Checkins.Tests.{plain}
use mesh_monday.Config.{Config, public_channel_key_hex, derive_hashtag_key_hex, channel_secret_keys}
use mesh_monday.Config.Keys.{
  IsKeyList, IsServed, channel_secret_keys-IsKeyList, channel_secret_keys-IsServed,
}

abbrev pub test_config : Config
test_config = record {
  app_env = codes "development";
  http_addr = [];
  mesh_name = codes "MeshCore";
  dicebear_style = codes "adventurer";
  ui_poll_seconds = pos 15;
  iata_default = codes "SEA";
  iata_filters = [];
  track_from_date = record { unix = 0; zone = utc };
  tz = codes "UTC";
  sqlite_path = [];
  mqtt_broker_url = [];
  mqtt_topic_template = [];
  mqtt_client_id = [];
  mqtt_username = [];
  mqtt_password = [];
  mqtt_max_payload_bytes = pos 16384;
  ingest_max_packet_hex = pos 0;
  ingest_max_observer = pos 0;
  hashtag_channels = codes "meshmonday" ∷ [];
  private_channel_keys =
      codes "000102030405060708090a0b0c0d0e0f"
      ∷ codes " 000102030405060708090A0B0C0D0E0F"
      ∷ codes " "
      ∷ [];
  replay_delay = pos 25;
  enable_dev_seed = false;
  raw_monday_retain_weeks = pos 12;
  retention_interval = pos 60;
}

channel_secret_keys-IsKeyList_example : IsKeyList (channel_secret_keys plain test_config)
channel_secret_keys-IsKeyList_example = channel_secret_keys-IsKeyList plain test_config

channel_secret_keys-IsServed_example :
    IsServed plain (channel_secret_keys plain test_config) public_channel_key_hex
    × All
        (λ name.
          IsServed plain
            (channel_secret_keys plain test_config)
            (derive_hashtag_key_hex plain name))
        test_config.hashtag_channels
    × All (IsServed plain (channel_secret_keys plain test_config)) test_config.private_channel_keys
channel_secret_keys-IsServed_example = channel_secret_keys-IsServed plain test_config
