-- ===== src/Config/Load/Described.antt =====
-- What the environment says: the variables that `Load` of internal/config/config.go reads, with their
-- defaults, and the fields that they give.
use mesh_monday.Base.{
  ◌≡◌, ◌≢◌, refl, inl, inr, Bool-cases, [], none, some, Bytes, codes, same, same_iff, ℕ, err,
}
use mesh_monday.Base.Int.{ℤ}
use mesh_monday.Platform.{Platform}
use mesh_monday.Go.Text.{to_lower, to_upper}
use mesh_monday.Go.Trim.{trim_space}
use mesh_monday.Go.Time.{Time, date}
use mesh_monday.Go.Date.{parse_date}
use mesh_monday.Go.Number.{atoi, duration}
use mesh_monday.Checkins.Weeks.{location}
use mesh_monday.Config.{Config, parse_bool, parse_csv, parse_iata_filters}
use mesh_monday.Config.EnvFile.{Env, getenv}
use mesh_monday.Config.Validate.{validate}
use mesh_monday.Config.Load.{LoadError, bad_date, bad_number, refused, get_env, millisecond, minute}

-- The numbers that are read.
pub data IsNumberSetting : Bytes → Bytes → Type 0 where
  is_replay_delay : IsNumberSetting (codes "REPLAY_DELAY_MS") (codes "25")
  is_poll_seconds : IsNumberSetting (codes "UI_POLL_SECONDS") (codes "15")
  is_max_payload : IsNumberSetting (codes "MQTT_MAX_PAYLOAD_BYTES") (codes "16384")
  is_max_packet_hex : IsNumberSetting (codes "INGEST_MAX_PACKET_HEX_CHARS") (codes "8192")
  is_max_observer : IsNumberSetting (codes "INGEST_MAX_OBSERVER_KEY_CHARS") (codes "64")
  is_retain_weeks : IsNumberSetting (codes "RAW_MONDAY_RETAIN_WEEKS") (codes "12")
  is_interval : IsNumberSetting (codes "RETENTION_INTERVAL_MINUTES") (codes "60")

module _ (env : Env) where
  -- The text of a setting: the variable's, or the default where the variable is not set or empty.
  pub record IsSetting (key default v : Bytes) : Type 0 where
    pub unset : getenv key env ≡ [] → v ≡ default
    pub given : getenv key env ≢ [] → v ≡ getenv key env

  get_env-IsSetting : (key default : Bytes) → IsSetting key default (get_env env key default)
  unfolding get_env
  get_env-IsSetting key default = elim (Bool-cases (same (getenv key env) [])) [
    | inl e ↦ rw e (record {
      unset = λ f. refl;
      given = λ ne. absurd (ne ((same_iff (getenv key env) []).0 e));
    })
    | inr e ↦ rw e (record {
      unset = λ f. let f' = (same_iff (getenv key env) []).1 f in cc (e, f');
      given = λ ne. refl;
    })
  ]

  -- Of the setting's text.
  abbrev pub Reads : Bytes → Bytes → (Bytes → Type 0) → Type 0
  Reads key default P = (v : Bytes) × IsSetting key default v × P v

  pub get_env-Reads :
      (key default : Bytes) (P : Bytes → Type 0) → P (get_env env key default) → Reads key default P
  get_env-Reads key default P h = (get_env env key default, get_env-IsSetting key default, h)

  abbrev pub IsText : Bytes → Bytes → Bytes → Type 0
  IsText key default text = Reads key default (λ v. text ≡ v)

  abbrev pub IsNumber : Bytes → Bytes → ℤ → Type 0
  IsNumber key default i = Reads key default (λ v. atoi v ≡ some i)

  module _ (p : Platform) where
    -- Midnight of the tracked day in the configured zone.
    abbrev pub IsTrackFrom : Time → Type 0
    IsTrackFrom t = Reads (codes "TZ") (codes "America/Los_Angeles") (λ tz.
        Reads (codes "TRACK_FROM_DATE") (codes "2026-01-05")
          (λ v. (day : ℕ) × (parse_date v ≡ some day) × (t ≡ date (location p tz) day 0)))

    pub record Describes (c : Config) : Type 0 where
      pub app_env : IsText (codes "APP_ENV") (codes "development") c.app_env
      pub http_addr : IsText (codes "HTTP_ADDR") (codes "127.0.0.1:8080") c.http_addr
      pub mesh_name : IsText (codes "MESH_NAME") (codes "MeshCore") c.mesh_name
      pub dicebear_style :
          Reads
            (codes "DICEBEAR_STYLE")
            (codes "adventurer")
            (λ v. c.dicebear_style ≡ to_lower p (trim_space v))
      pub ui_poll_seconds : IsNumber (codes "UI_POLL_SECONDS") (codes "15") c.ui_poll_seconds
      pub iata_default :
          Reads (codes "IATA_DEFAULT") (codes "SEA") (λ v. c.iata_default ≡ to_upper p v)
      pub iata_filters :
          Reads
            (codes "IATA_FILTERS")
            []
            (λ v. c.iata_filters ≡ parse_iata_filters p v c.iata_default)
      pub track_from_date : IsTrackFrom c.track_from_date
      pub tz : IsText (codes "TZ") (codes "America/Los_Angeles") c.tz
      pub sqlite_path :
          IsText (codes "SQLITE_PATH") (codes "./data/meshmonday_dev.db") c.sqlite_path
      pub broker : IsText (codes "MQTT_BROKER_URL") (codes "tcp://localhost:1883") c.mqtt_broker_url
      pub topic :
          IsText (codes "MQTT_TOPIC_TEMPLATE") (codes "meshcore/+/+/packets") c.mqtt_topic_template
      pub client_id : IsText (codes "MQTT_CLIENT_ID") (codes "meshmonday-dev") c.mqtt_client_id
      pub username : c.mqtt_username ≡ getenv (codes "MQTT_USERNAME") env
      pub password : c.mqtt_password ≡ getenv (codes "MQTT_PASSWORD") env
      pub payload :
          IsNumber (codes "MQTT_MAX_PAYLOAD_BYTES") (codes "16384") c.mqtt_max_payload_bytes
      pub packet_hex :
          IsNumber (codes "INGEST_MAX_PACKET_HEX_CHARS") (codes "8192") c.ingest_max_packet_hex
      pub observer :
          IsNumber (codes "INGEST_MAX_OBSERVER_KEY_CHARS") (codes "64") c.ingest_max_observer
      pub hashtag_channels :
          Reads (codes "HASHTAG_CHANNELS") [] (λ v. c.hashtag_channels ≡ parse_csv v)
      pub private_channel_keys :
          Reads (codes "PRIVATE_CHANNEL_KEYS") [] (λ v. c.private_channel_keys ≡ parse_csv v)
      pub replay_delay :
          (ms : ℤ) × IsNumber (codes "REPLAY_DELAY_MS") (codes "25") ms
          × (c.replay_delay ≡ duration ms millisecond)
      pub dev_seed :
          Reads (codes "ENABLE_DEV_SEED") (codes "false") (λ v. c.enable_dev_seed ≡ parse_bool p v)
      pub weeks : IsNumber (codes "RAW_MONDAY_RETAIN_WEEKS") (codes "12") c.raw_monday_retain_weeks
      pub interval :
          (minutes : ℤ) × IsNumber (codes "RETENTION_INTERVAL_MINUTES") (codes "60") minutes
          × (c.retention_interval ≡ duration minutes minute)

    -- What a failure says: that the day cannot be read, that one of the numbers cannot be, or that `Validate`
    -- refuses what the environment describes, for the reason given.
    abbrev pub IsFailure : LoadError → Type 0
    IsFailure bad_date =
        Reads (codes "TRACK_FROM_DATE") (codes "2026-01-05") (λ v. parse_date v ≡ none)
    IsFailure (bad_number key) =
        (default : Bytes) × IsNumberSetting key default × Reads key default (λ v. atoi v ≡ none)
    IsFailure (refused e) = (c : Config) × Describes c × (validate p c ≡ err e)
