-- ===== src/Config/Validate/Tests.antt =====
-- A configuration for production with two regions and a private key.
use mesh_monday.Base.{◌≡◌, refl, [], ◌∷◌, codes, same, ok}
use mesh_monday.Base.Int.{pos}
use mesh_monday.Go.Text.{to_lower, split, is_ascii, lower_byte}
use mesh_monday.Go.Trim.{trim_space}
use mesh_monday.Go.Hex.{decode_string}
use mesh_monday.Checkins.Tests.{plain}
use mesh_monday.Config.{Config}
use mesh_monday.Config.Tests.{test_config}
use mesh_monday.Config.Validate.{validate, is_slug, slug_bytes, slug_byte}
use mesh_monday.Config.Validate.Accepted.{IsAccepted, validate-IsAccepted}

abbrev pub production_config : Config
production_config = record test_config {
  app_env = codes "production";
  mqtt_topic_template = codes "meshcore/+/+/packets";
  mqtt_username = codes "mesh";
  mqtt_password = codes "monday";
  ingest_max_packet_hex = pos 8192;
  ingest_max_observer = pos 64;
  iata_filters = codes "SEA" ∷ codes "KPDX" ∷ [];
  private_channel_keys = codes " 000102030405060708090A0B0C0D0E0F" ∷ [];
  retention_interval = pos 3600000000000;
}

pub accepted : validate plain production_config ≡ ok tt
unfolding validate is_slug split trim_space decode_string to_lower same is_ascii lower_byte
    slug_bytes slug_byte
accepted = refl

validate-IsAccepted_example : IsAccepted plain production_config
validate-IsAccepted_example = validate-IsAccepted plain production_config accepted
