-- ===== src/Config/Load.antt =====
-- `Load` of internal/config/config.go: the configuration that the environment describes.
pub mod Regions
pub mod Described
pub mod Loaded
mod Tests
use mesh_monday.Base.{
  ℕ, zero, suc, Bool, not, List, [], ◌∷◌, ◌++◌, Option, none, some, Option-cases, Bytes, codes,
  if◌then◌else◌, same, length, Result, ok, err, ◌>>=◌, ◌>>◌,
}
use mesh_monday.Base.Int.{ℤ}
use mesh_monday.Platform.{Platform}
use mesh_monday.Go.Text.{to_lower, to_upper, has_prefix, contains}
use mesh_monday.Go.Trim.{trim_space}
use mesh_monday.Go.Time.{Time, Zone, date}
use mesh_monday.Go.Date.{parse_date}
use mesh_monday.Go.Number.{atoi, duration}
use mesh_monday.Checkins.Weeks.{location}
use mesh_monday.Config.{Config, parse_bool, parse_csv, parse_iata_filters}
use mesh_monday.Config.EnvFile.{Env, getenv}
use mesh_monday.Config.Validate.{ConfigError, validate}

-- `getEnv`
pub get_env : Env → Bytes → Bytes → Bytes
get_env env key default = let v = getenv key env in if same v [] then default else v

-- Why there is no configuration: a date or a number that cannot be read, or what `Validate` reports.
pub data LoadError : Type 0 where
  bad_date : LoadError
  bad_number : Bytes → LoadError
  refused : ConfigError → LoadError

-- `time.ParseInLocation` at the layout 2006-01-02.
midnight_of : Zone → Option ℕ → Result LoadError Time
midnight_of z none = err bad_date
midnight_of z (some day) = ok (date z day 0)

number_of : Bytes → Option ℤ → Result LoadError ℤ
number_of key none = err (bad_number key)
number_of key (some i) = ok i

-- `strconv.Atoi` of a variable.
pub number : Env → Bytes → Bytes → Result LoadError ℤ
unfolding number_of
number env key default = number_of key (atoi (get_env env key default))

abbrev pub time_zone : Env → Bytes
time_zone env = get_env env (codes "TZ") (codes "America/Los_Angeles")

pub track_from : Platform → Env → Result LoadError Time
unfolding midnight_of
track_from p env =
    midnight_of (location p (time_zone env))
      (parse_date (get_env env (codes "TRACK_FROM_DATE") (codes "2026-01-05")))

-- The numbers, as they are read one after the other.
pub record Numbers : Type 0 where
  pub replay_delay_ms : ℤ
  pub ui_poll_seconds : ℤ
  pub mqtt_max_payload_bytes : ℤ
  pub ingest_max_packet_hex : ℤ
  pub ingest_max_observer : ℤ
  pub raw_monday_retain_weeks : ℤ
  pub retention_interval_min : ℤ

pub numbers : Env → Result LoadError Numbers
numbers env = do
  replay ← number env (codes "REPLAY_DELAY_MS") (codes "25")
  poll ← number env (codes "UI_POLL_SECONDS") (codes "15")
  payload ← number env (codes "MQTT_MAX_PAYLOAD_BYTES") (codes "16384")
  packet_hex ← number env (codes "INGEST_MAX_PACKET_HEX_CHARS") (codes "8192")
  observer ← number env (codes "INGEST_MAX_OBSERVER_KEY_CHARS") (codes "64")
  weeks ← number env (codes "RAW_MONDAY_RETAIN_WEEKS") (codes "12")
  minutes ← number env (codes "RETENTION_INTERVAL_MINUTES") (codes "60")
  ok (record {
    replay_delay_ms = replay;
    ui_poll_seconds = poll;
    mqtt_max_payload_bytes = payload;
    ingest_max_packet_hex = packet_hex;
    ingest_max_observer = observer;
    raw_monday_retain_weeks = weeks;
    retention_interval_min = minutes;
  })

abbrev pub millisecond : ℕ
millisecond = 1000000

abbrev pub minute : ℕ
minute = 60000000000

pub config_of : Platform → Env → Time → Numbers → Config
config_of p env from n =
    let iata = to_upper p (get_env env (codes "IATA_DEFAULT") (codes "SEA")) in
    record {
      app_env = get_env env (codes "APP_ENV") (codes "development");
      http_addr = get_env env (codes "HTTP_ADDR") (codes "127.0.0.1:8080");
      mesh_name = get_env env (codes "MESH_NAME") (codes "MeshCore");
      dicebear_style =
          to_lower p (trim_space (get_env env (codes "DICEBEAR_STYLE") (codes "adventurer")));
      ui_poll_seconds = n.ui_poll_seconds;
      iata_default = iata;
      iata_filters = parse_iata_filters p (get_env env (codes "IATA_FILTERS") []) iata;
      track_from_date = from;
      tz = time_zone env;
      sqlite_path = get_env env (codes "SQLITE_PATH") (codes "./data/meshmonday_dev.db");
      mqtt_broker_url = get_env env (codes "MQTT_BROKER_URL") (codes "tcp://localhost:1883");
      mqtt_topic_template =
          get_env env (codes "MQTT_TOPIC_TEMPLATE") (codes "meshcore/+/+/packets");
      mqtt_client_id = get_env env (codes "MQTT_CLIENT_ID") (codes "meshmonday-dev");
      mqtt_username = getenv (codes "MQTT_USERNAME") env;
      mqtt_password = getenv (codes "MQTT_PASSWORD") env;
      mqtt_max_payload_bytes = n.mqtt_max_payload_bytes;
      ingest_max_packet_hex = n.ingest_max_packet_hex;
      ingest_max_observer = n.ingest_max_observer;
      hashtag_channels = parse_csv (get_env env (codes "HASHTAG_CHANNELS") []);
      private_channel_keys = parse_csv (get_env env (codes "PRIVATE_CHANNEL_KEYS") []);
      replay_delay = duration n.replay_delay_ms millisecond;
      enable_dev_seed = parse_bool p (get_env env (codes "ENABLE_DEV_SEED") (codes "false"));
      raw_monday_retain_weeks = n.raw_monday_retain_weeks;
      retention_interval = duration n.retention_interval_min minute;
    }

validated : Config → Result ConfigError (Unit {0}) → Result LoadError Config
validated c (err e) = err (refused e)
validated c (ok u) = ok c

-- `Load`
pub load : Platform → Env → Result LoadError Config
unfolding validated
load p env = do
  from ← track_from p env
  n ← numbers env
  validated (config_of p env from n) (validate p (config_of p env from n))

-- `strings.ReplaceAll` of the placeholder, with the bytes of a match that are still to be skipped.
replace_iata : Bytes → ℕ → Bytes → Bytes
replace_iata value skip [] = []
replace_iata value (suc skip) (c ∷ s) = replace_iata value skip s
replace_iata value zero (c ∷ s) =
    let inside = value ++ replace_iata value 5 s in
    let outside = c ∷ replace_iata value 0 s in
    if has_prefix (c ∷ s) (codes "{IATA}") then inside else outside

-- `TopicForIATA`
pub topic_for_iata : Platform → Config → Bytes → Bytes
unfolding replace_iata
topic_for_iata p c iata =
    let wanted = to_upper p (trim_space iata) in
    let value = if same wanted [] then c.iata_default else wanted in
    if not (contains c.mqtt_topic_template (codes "{IATA}"))
    then c.mqtt_topic_template
    else replace_iata value 0 c.mqtt_topic_template
