-- ===== src/Platform.antt =====
-- What the program calls and this repository does not hold: the Unicode case tables, the hash and
-- cipher functions, the JSON reader and the time zones. Each is a function of its arguments, and nothing else is
-- assumed of it here.
use mesh_monday.Base.{Bytes, List, Option}
use mesh_monday.Go.Time.{Zone}

-- A value of a decoded JSON object, as far as the type assertion `v.(string)` tells values apart.
pub data JsonValue : Type 0 where
  str : Bytes → JsonValue
  other : JsonValue

-- `packetEnvelope`: the two fields that are read from an envelope.
pub record Envelope : Type 0 where
  pub origin : Bytes
  pub raw : Bytes

pub record Platform : Type 0 where
  -- `strings.Map(unicode.ToLower, s)` and its upper-case twin, called for text that is not ASCII.
  pub lower_unicode : Bytes → Bytes
  pub upper_unicode : Bytes → Bytes
  pub sha256 : Bytes → Bytes
  -- the key, then the message
  pub hmac_sha256 : Bytes → Bytes → Bytes
  -- one AES-128 block: the key, then the block
  pub aes_decrypt : Bytes → Bytes → Bytes
  -- `json.Valid` with `json.Unmarshal` into an envelope, and into a `map[string]any`.
  pub json_envelope : Bytes → Option Envelope
  pub json_object : Bytes → Option (List (Bytes × JsonValue))
  -- `time.LoadLocation`; an unknown name is an error.
  pub load_location : Bytes → Option Zone
