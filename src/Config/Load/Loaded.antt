-- ===== src/Config/Load/Loaded.antt =====
-- How `Load` ends.
use mesh_monday.Base.{
  ℕ, ◌+◌, ◌^◌, ◌≡◌, refl, arith, Option, none, some, Bytes, codes, Result, ok, err, ◌>>=◌,
}
use mesh_monday.Base.Int.{ℤ, pos}
use mesh_monday.Platform.{Platform}
use mesh_monday.Go.Time.{Time, date}
use mesh_monday.Go.Date.{parse_date}
use mesh_monday.Go.Number.{atoi, duration}
use mesh_monday.Checkins.Weeks.{location}
use mesh_monday.Go.Text.{to_lower, to_upper}
use mesh_monday.Go.Trim.{trim_space}
use mesh_monday.Config.{Config, parse_bool, parse_csv, parse_iata_filters}
use mesh_monday.Config.EnvFile.{Env}
use mesh_monday.Config.Validate.{ConfigError, validate}
use mesh_monday.Config.Validate.Accepted.{IsAccepted, validate-IsAccepted}
use mesh_monday.Config.Load.{
  LoadError, get_env, midnight_of, number_of, number, time_zone, track_from, Numbers, numbers,
  minute, config_of, validated, load,
}
use mesh_monday.Config.Load.Described.{
  IsNumberSetting, is_replay_delay, is_poll_seconds, is_max_payload, is_max_packet_hex,
  is_max_observer, is_retain_weeks, is_interval, Reads, get_env-Reads, IsText, IsNumber,
  IsTrackFrom, Describes, IsFailure,
}
use mesh_monday.Config.Load.Regions.{IsRegionList, parse_iata_filters-IsRegionList}

pub record AreNumbers (env : Env) (n : Numbers) : Type 0 where
  pub replay : IsNumber env (codes "REPLAY_DELAY_MS") (codes "25") n.replay_delay_ms
  pub poll : IsNumber env (codes "UI_POLL_SECONDS") (codes "15") n.ui_poll_seconds
  pub payload :
      IsNumber env (codes "MQTT_MAX_PAYLOAD_BYTES") (codes "16384") n.mqtt_max_payload_bytes
  pub packet_hex :
      IsNumber env (codes "INGEST_MAX_PACKET_HEX_CHARS") (codes "8192") n.ingest_max_packet_hex
  pub observer :
      IsNumber env (codes "INGEST_MAX_OBSERVER_KEY_CHARS") (codes "64") n.ingest_max_observer
  pub weeks : IsNumber env (codes "RAW_MONDAY_RETAIN_WEEKS") (codes "12") n.raw_monday_retain_weeks
  pub minutes :
      IsNumber env (codes "RETENTION_INTERVAL_MINUTES") (codes "60") n.retention_interval_min

module _ (p : Platform) (env : Env) where
  -- A failure is what it says, and a value is as it should be.
  abbrev pub Ends : {A : Type 0} → (A → Type 0) → Result LoadError A → Type 0
  Ends P (err e) = IsFailure env p e
  Ends P (ok a) = P a

  and_then :
      {A B : Type 0} (P : A → Type 0) (R : B → Type 0) (m : Result LoadError A)
      (f : A → Result LoadError B)
      → Ends P m
      → ((a : A) → P a → Ends R (f a))
      → Ends R (m >>= f)
  and_then P R (err e) f h go = h
  and_then P R (ok a) f h go = go a h

  number_of-Ends :
      (key default : Bytes) (o : Option ℤ)
      → IsNumberSetting key default
      → atoi (get_env env key default) ≡ o
      → Ends (IsNumber env key default) (number_of key o)
  unfolding number_of
  number_of-Ends key default none setting e =
      (default, setting, get_env-Reads env key default (λ v. atoi v ≡ none) e)
  number_of-Ends key default (some i) setting e =
      get_env-Reads env key default (λ v. atoi v ≡ some i) e

  -- Reading one number of several.
  reads :
      {B : Type 0} {key default : Bytes} (R : B → Type 0) (f : ℤ → Result LoadError B)
      → IsNumberSetting key default
      → ((i : ℤ) → IsNumber env key default i → Ends R (f i))
      → Ends R (number env key default >>= f)
  unfolding number
  reads {key = key} {default = default} R f setting go =
      and_then (IsNumber env key default) R (number env key default) f
        (number_of-Ends key default (atoi (get_env env key default)) setting refl) go

  numbers-Ends : Ends (AreNumbers env) (numbers env)
  unfolding numbers
  numbers-Ends = reads (AreNumbers env) _ is_replay_delay (λ replay e0.
      reads (AreNumbers env) _ is_poll_seconds (λ poll e1.
        reads (AreNumbers env) _ is_max_payload (λ payload e2.
          reads (AreNumbers env) _ is_max_packet_hex (λ packet_hex e3.
            reads (AreNumbers env) _ is_max_observer (λ observer e4.
              reads (AreNumbers env) _ is_retain_weeks (λ weeks e5.
                reads (AreNumbers env) _ is_interval (λ minutes e6. record {
                  replay = e0;
                  poll = e1;
                  payload = e2;
                  packet_hex = e3;
                  observer = e4;
                  weeks = e5;
                  minutes = e6;
                })))))))

  midnight_of-Ends :
      (o : Option ℕ)
      → parse_date (get_env env (codes "TRACK_FROM_DATE") (codes "2026-01-05")) ≡ o
      → Ends (IsTrackFrom env p) (midnight_of (location p (time_zone env)) o)
  unfolding midnight_of
  midnight_of-Ends none e = get_env-Reads env _ _ (λ v. parse_date v ≡ none) e
  midnight_of-Ends (some day) e =
      get_env-Reads env _ _
        (λ tz. Reads env (codes "TRACK_FROM_DATE") (codes "2026-01-05") (λ v.
          (d : ℕ) × (parse_date v ≡ some d)
          × (date (location p (time_zone env)) day 0 ≡ date (location p tz) d 0)))
        (get_env-Reads env _ _
          (λ v.
            (d : ℕ) × (parse_date v ≡ some d)
            × (date (location p (time_zone env)) day 0 ≡ date (location p (time_zone env)) d 0))
          (day, e, refl))

  track_from-Ends : Ends (IsTrackFrom env p) (track_from p env)
  unfolding track_from
  track_from-Ends = midnight_of-Ends _ refl

  text : (key default : Bytes) → IsText env key default (get_env env key default)
  text key default = get_env-Reads env key default (λ v. get_env env key default ≡ v) refl

  config_of-Describes :
      (t : Time) (n : Numbers)
      → IsTrackFrom env p t
      → AreNumbers env n
      → Describes env p (config_of p env t n)
  unfolding config_of
  config_of-Describes t n d v = record {
    app_env = text (codes "APP_ENV") (codes "development");
    http_addr = text (codes "HTTP_ADDR") (codes "127.0.0.1:8080");
    mesh_name = text (codes "MESH_NAME") (codes "MeshCore");
    dicebear_style =
        get_env-Reads env _ _
          (λ v. (config_of p env t n).dicebear_style ≡ to_lower p (trim_space v)) refl;
    ui_poll_seconds = v.poll;
    iata_default =
        get_env-Reads env _ _ (λ v. (config_of p env t n).iata_default ≡ to_upper p v) refl;
    iata_filters =
        get_env-Reads env _ _
          (λ v.
            (config_of p env t n).iata_filters
            ≡ parse_iata_filters p v (config_of p env t n).iata_default)
          refl;
    track_from_date = d;
    tz = text (codes "TZ") (codes "America/Los_Angeles");
    sqlite_path = text (codes "SQLITE_PATH") (codes "./data/meshmonday_dev.db");
    broker = text (codes "MQTT_BROKER_URL") (codes "tcp://localhost:1883");
    topic = text (codes "MQTT_TOPIC_TEMPLATE") (codes "meshcore/+/+/packets");
    client_id = text (codes "MQTT_CLIENT_ID") (codes "meshmonday-dev");
    username = refl;
    password = refl;
    payload = v.payload;
    packet_hex = v.packet_hex;
    observer = v.observer;
    hashtag_channels =
        get_env-Reads env _ _ (λ v. (config_of p env t n).hashtag_channels ≡ parse_csv v) refl;
    private_channel_keys =
        get_env-Reads env _ _ (λ v. (config_of p env t n).private_channel_keys ≡ parse_csv v) refl;
    replay_delay = (n.replay_delay_ms, v.replay, refl);
    dev_seed =
        get_env-Reads env _ _ (λ v. (config_of p env t n).enable_dev_seed ≡ parse_bool p v) refl;
    weeks = v.weeks;
    interval = (n.retention_interval_min, v.minutes, refl);
  }

  -- A configuration of which every field is as the environment describes it, which `Validate` accepts, and
  -- whose regions are without repeats.
  pub record IsLoaded (c : Config) : Type 0 where
    pub described : Describes env p c
    pub accepted : IsAccepted p c
    pub regions : IsRegionList p c.iata_filters

  validated-Ends :
      (t : Time) (n : Numbers) (r : Result ConfigError (Unit {0}))
      → IsTrackFrom env p t
      → AreNumbers env n
      → validate p (config_of p env t n) ≡ r
      → Ends IsLoaded (validated (config_of p env t n) r)
  unfolding validated config_of
  validated-Ends t n (err e) d v h = (config_of p env t n, config_of-Describes t n d v, h)
  validated-Ends t n (ok u) d v h = record {
    described = config_of-Describes t n d v;
    accepted = validate-IsAccepted p (config_of p env t n) h;
    regions = parse_iata_filters-IsRegionList p _ _;
  }

-- Every environment gives a configuration or an error. In a configuration each field is what its
-- variable says, or its default where the variable is not set or empty; `Validate` accepts it, and its
-- regions are without repeats. An error is one of these: the text of the day is no date; the text of
-- the number that is named is no number; or `Validate` refuses, for the reason that is given, the
-- configuration whose fields are so.
pub load-Ends : (p : Platform) (env : Env) → Ends p env (IsLoaded p env) (load p env)
unfolding load
load-Ends p env =
    and_then p env (IsTrackFrom env p) (IsLoaded p env) (track_from p env) _ (track_from-Ends p env)
      (λ t d.
        and_then p env (AreNumbers env) (IsLoaded p env) (numbers env) _ (numbers-Ends p env)
          (λ n v. validated-Ends p env t n _ d v refl))

-- Two numbers of minutes that differ by 2 ^ 53 give the same interval.
interval_wraps : (n : ℕ) → duration (pos (n + 2 ^ 53)) minute ≡ duration (pos n) minute
unfolding duration
interval_wraps n = ground arith
