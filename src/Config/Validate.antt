-- ===== src/Config/Validate.antt =====
-- `Validate` of internal/config/config.go: which settings the service starts with.
pub mod Accepted
pub mod Tests
use mesh_monday.Base.{
  ℕ, Bool, true, false, not, ◌&&◌, ◌||◌, List, [], ◌∷◌, none, some, Bytes, codes, ltb, leb, ◌==◌,
  same, length, Result, ok, err, fail_if, ◌>>=◌, ◌>>◌,
}
use mesh_monday.Base.Int.{ℤ, pos, ltb_ℤ}
use mesh_monday.Platform.{Platform}
use mesh_monday.Go.Text.{to_lower, split}
use mesh_monday.Go.Trim.{trim_space}
use mesh_monday.Go.Hex.{decode_string}
use mesh_monday.Config.{Config}

-- Why a configuration is refused.
pub data ConfigError : Type 0 where
  missing_credentials empty_mesh_name invalid_dicebear_style negative_ui_poll empty_topic :
      ConfigError
  small_payload small_packet_hex small_observer negative_retention long_retention : ConfigError
  short_interval : ConfigError
  invalid_filter invalid_key_length invalid_key : Bytes → ConfigError

-- [a-z0-9]
slug_byte : ℕ → Bool
slug_byte c = leb b'a' c && leb c b'z' || leb b'0' c && leb c b'9'

slug_bytes : Bytes → Bool
slug_bytes [] = true
slug_bytes (c ∷ s) = let rest = slug_bytes s in slug_byte c && rest

-- One word or more of such bytes, none of them empty, with one dash between two.
slug_words : List Bytes → Bool
slug_words [] = true
slug_words (word ∷ words) =
    let rest = slug_words words in not (same word []) && (slug_bytes word && rest)

-- `diceBearStyleSlugPattern`
pub is_slug : Bytes → Bool
unfolding slug_words
is_slug s = slug_words (split s b'-')

check_filters : List Bytes → Result ConfigError (Unit {0})
check_filters [] = ok tt
check_filters (iata ∷ filters) =
    fail_if (ltb (length iata) 3 || ltb 4 (length iata)) (invalid_filter iata)
    >> check_filters filters

check_key : Platform → Bytes → Result ConfigError (Unit {0})
check_key p raw =
    let value = to_lower p (trim_space raw) in
    fail_if (not (length value == 32)) (invalid_key_length raw)
    >> (elim (decode_string value) [ none ↦ err (invalid_key raw) | some bytes ↦ ok tt ])

check_keys : Platform → List Bytes → Result ConfigError (Unit {0})
unfolding check_key
check_keys p [] = ok tt
check_keys p (raw ∷ keys) = check_key p raw >> check_keys p keys

check_numbers : Config → Result ConfigError (Unit {0}) → Result ConfigError (Unit {0})
check_numbers c rest =
    fail_if (ltb_ℤ c.mqtt_max_payload_bytes (pos 256)) small_payload
    >> (fail_if (ltb_ℤ c.ingest_max_packet_hex (pos 64)) small_packet_hex
        >> (fail_if (ltb_ℤ c.ingest_max_observer (pos 8)) small_observer
            >> (fail_if (ltb_ℤ c.raw_monday_retain_weeks (pos 0)) negative_retention
                >> (fail_if (ltb_ℤ (pos 1040) c.raw_monday_retain_weeks) long_retention
                    >> (fail_if (ltb_ℤ c.retention_interval (pos 60000000000)) short_interval
                        >> rest)))))

-- `Validate`; an interval counts nanoseconds.
pub validate : Platform → Config → Result ConfigError (Unit {0})
unfolding check_filters check_keys check_numbers is_slug
validate p c =
    fail_if
      (same c.app_env (codes "production") && (same c.mqtt_username [] || same c.mqtt_password []))
      missing_credentials
    >> (fail_if (same (trim_space c.mesh_name) []) empty_mesh_name
        >> (fail_if (not (is_slug c.dicebear_style)) invalid_dicebear_style
            >> (fail_if (ltb_ℤ c.ui_poll_seconds (pos 0)) negative_ui_poll
                >> (fail_if (same (trim_space c.mqtt_topic_template) []) empty_topic
                    >> check_numbers c
                        (check_filters c.iata_filters >> check_keys p c.private_channel_keys)))))
