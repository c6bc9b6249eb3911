-- ===== src/Config.antt =====
-- internal/config/config.go: the settings of the service.
pub mod Keys
pub mod EnvFile
pub mod Load
pub mod Validate
pub mod Tests
use mesh_monday.Base.{
  Bool, not, ◌&&◌, List, [], ◌∷◌, ◌++◌, Option, none, some, Bytes, codes, if◌then◌else◌, same,
  any_of, take,
}
use mesh_monday.Base.Int.{ℤ}
use mesh_monday.Platform.{Platform}
use mesh_monday.Go.Text.{to_lower, to_upper, split, has_prefix, join}
use mesh_monday.Go.Trim.{trim_space}
use mesh_monday.Go.Hex.{encode_to_string}
use mesh_monday.Go.Time.{Time}

pub record Config : Type 0 where
  pub app_env : Bytes
  pub http_addr : Bytes
  pub mesh_name : Bytes
  pub dicebear_style : Bytes
  pub ui_poll_seconds : ℤ
  pub iata_default : Bytes
  pub iata_filters : List Bytes
  pub track_from_date : Time
  pub tz : Bytes
  pub sqlite_path : Bytes
  pub mqtt_broker_url : Bytes
  pub mqtt_topic_template : Bytes
  pub mqtt_client_id : Bytes
  pub mqtt_username : Bytes
  pub mqtt_password : Bytes
  pub mqtt_max_payload_bytes : ℤ
  pub ingest_max_packet_hex : ℤ
  pub ingest_max_observer : ℤ
  pub hashtag_channels : List Bytes
  pub private_channel_keys : List Bytes
  pub replay_delay : ℤ
  pub enable_dev_seed : Bool
  pub raw_monday_retain_weeks : ℤ
  pub retention_interval : ℤ

abbrev pub public_channel_key_hex : Bytes
public_channel_key_hex = codes "8b3387e9c5cdea6ac9e5edbaa115cd72"

-- Whether the text is one of a list; a Go map of seen keys is asked the same question.
abbrev pub one_of : List Bytes → Bytes → Bool
one_of texts s = any_of (λ t. same t s) texts

-- `parseBool`
unfoldable pub parse_bool : Platform → Bytes → Bool
parse_bool p raw =
    one_of (codes "1" ∷ codes "true" ∷ codes "yes" ∷ codes "y" ∷ codes "on" ∷ [])
      (to_lower p (trim_space raw))

-- The loop of `parseCSV`: parts that are blank are dropped.
csv_values : List Bytes → List Bytes
csv_values [] = []
csv_values (part ∷ parts) =
    let value = trim_space part in
    let rest = csv_values parts in if same value [] then rest else value ∷ rest

unfoldable pub parse_csv : Bytes → List Bytes
unfolding csv_values
parse_csv raw = csv_values (split raw b',')

unfoldable pub is_all_iata_value : Platform → Bytes → Bool
is_all_iata_value p value =
    one_of ([] ∷ codes "ALL" ∷ codes "*" ∷ codes "ANY" ∷ []) (to_upper p (trim_space value))

-- The loop of `parseIATAFilters`; `none` where it returns `nil` at a part that stands for all.
filter_parts : Platform → List Bytes → List Bytes → Option (List Bytes)
filter_parts p [] out = some out
filter_parts p (part ∷ parts) out =
    let iata = to_upper p (trim_space part) in
    let skip = filter_parts p parts out in
    let take_it = filter_parts p parts (out ++ iata ∷ []) in
    if same iata []
    then skip
    else if is_all_iata_value p iata
    then none
    else if one_of out iata
    then skip
    else take_it

or_nil : Option (List Bytes) → List Bytes
or_nil none = []
or_nil (some out) = out

-- `parseIATAFilters`; no filter means every region.
unfoldable pub parse_iata_filters : Platform → Bytes → Bytes → List Bytes
unfolding filter_parts or_nil
parse_iata_filters p raw fallback =
    let value = trim_space raw in
    if not (same value []) && is_all_iata_value p value
    then []
    else if same value [] && is_all_iata_value p fallback
    then []
    else let chosen = if same value [] then fallback else value in
      or_nil (filter_parts p (split chosen b',') [])

-- `deriveHashtagKeyHex`
unfoldable pub derive_hashtag_key_hex : Platform → Bytes → Bytes
derive_hashtag_key_hex p channel_name =
    let name = trim_space channel_name in
    if same name []
    then []
    else let tagged = if has_prefix name (codes "#") then name else b'#' ∷ name in
      encode_to_string (take 16 (p.sha256 (to_lower p tagged)))

-- The closure `add` of `ChannelSecretKeys`, on the keys so far.
add_key : Platform → List Bytes → Bytes → List Bytes
add_key p out key =
    let normalized = to_lower p (trim_space key) in
    if same normalized []
    then out
    else if one_of out normalized
    then out
    else out ++ normalized ∷ []

add_keys : Platform → List Bytes → List Bytes → List Bytes
add_keys p out [] = out
add_keys p out (key ∷ keys) = add_keys p (add_key p out key) keys

pub derive_all : Platform → List Bytes → List Bytes
derive_all p [] = []
derive_all p (name ∷ names) = derive_hashtag_key_hex p name ∷ derive_all p names

-- `ChannelSecretKeys`: the public key, the keys of the hashtag channels, the private keys.
unfoldable pub channel_secret_keys : Platform → Config → List Bytes
unfolding add_key add_keys derive_all
channel_secret_keys p c =
    add_keys p (add_keys p (add_key p [] public_channel_key_hex) (derive_all p c.hashtag_channels))
      c.private_channel_keys

unfoldable pub iata_filter_label : Config → Bytes
iata_filter_label c = elim c.iata_filters [ [] ↦ codes "ALL" | f ∷ fs ↦ join (f ∷ fs) (codes ", ") ]
