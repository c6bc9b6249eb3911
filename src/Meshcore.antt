-- ===== src/Meshcore.antt =====
-- internal/meshcore/decode.go: the packet decoder. The proofs are in the modules below this one.
-- A mask is a remainder and a shift is a quotient: `h & 0x3F` is `h % 64`, `h >> 6` is `h / 64`.
mod Tests
pub mod Wire
pub mod RoundTrip
pub mod Lossless
use mesh_monday.Base.{
  ℕ, zero, suc, ◌+◌, ◌*◌, ◌/◌, ◌%◌, ◌≡◌, refl, Bool, true, false, not, ◌||◌, List, [], ◌∷◌, Option,
  none, some, Bytes, codes, ltb, leb, ◌==◌, if◌then◌else◌, length, take, drop, get_or, Result, ok,
  err, ◌>>=◌, ◌>>◌, fail_if, ◌++◌, same,
}
use mesh_monday.Platform.{Platform}
use mesh_monday.Go.Text.{trim_prefix, to_lower}
use mesh_monday.Go.Trim.{trim_space}
use mesh_monday.Go.Hex.{decode_string, encode_to_string}
use mesh_monday.Go.Decimal.{decimal}

pub data DecodeError : Type 0 where
  empty_payload_hex : DecodeError
  decode_hex : DecodeError
  packet_too_short : DecodeError
  unsupported_payload_version : ℕ → DecodeError
  missing_transport_codes : DecodeError
  missing_path_length_byte : DecodeError
  invalid_bytes_per_hop : ℕ → DecodeError
  path_bytes_out_of_bounds : DecodeError

abbrev pub Decoded : Type 0 → Type 0
Decoded = Result DecodeError

pub record Packet : Type 0 where
  pub header : ℕ
  pub payload_version : ℕ
  pub payload_type : ℕ
  pub payload_type_name : Bytes
  pub route_type : ℕ
  pub route_type_name : Bytes
  pub transport_codes : Option (ℕ × ℕ)
  pub path_len : ℕ
  pub bytes_per_hop : ℕ
  pub path_byte_length : ℕ
  pub path : List Bytes
  pub path_hex : Bytes
  pub payload_hex : Bytes
  pub payload_bytes : Bytes

abbrev pub payload_version_v1 : ℕ
payload_version_v1 = 0

abbrev pub route_type_flood : ℕ
route_type_flood = 0

abbrev pub route_type_direct : ℕ
route_type_direct = 3

-- The two maps of names, in the order of their keys.
abbrev payload_type_names : List (ℕ × Bytes)
payload_type_names =
    (0x00, codes "REQUEST")
    ∷ (0x01, codes "RESPONSE")
    ∷ (0x02, codes "TEXT_MESSAGE")
    ∷ (0x03, codes "ACK")
    ∷ (0x04, codes "ADVERT")
    ∷ (0x05, codes "GROUP_TEXT")
    ∷ (0x06, codes "GROUP_DATA")
    ∷ (0x07, codes "ANON_REQUEST")
    ∷ (0x08, codes "PATH")
    ∷ (0x09, codes "TRACE")
    ∷ (0x0A, codes "MULTIPART")
    ∷ (0x0B, codes "CONTROL")
    ∷ (0x0F, codes "RAW_CUSTOM")
    ∷ []

abbrev route_type_names : List (ℕ × Bytes)
route_type_names =
    (0, codes "TRANSPORT_FLOOD")
    ∷ (1, codes "FLOOD")
    ∷ (2, codes "DIRECT")
    ∷ (3, codes "TRANSPORT_DIRECT")
    ∷ []

name_of : List (ℕ × Bytes) → ℕ → Bytes
name_of [] value = codes "UNKNOWN_" ++ decimal value
name_of ((k, name) ∷ names) value = elim (k == value) [ true ↦ name | false ↦ name_of names value ]

pub payload_type_name_of : ℕ → Bytes
unfolding name_of
payload_type_name_of value = name_of payload_type_names value

pub route_type_name_of : ℕ → Bytes
unfolding name_of
route_type_name_of value = name_of route_type_names value

-- `DecodePathLenByte`: the length in hops and the bytes of a hop.
unfoldable pub decode_path_len_byte : ℕ → Decoded (ℕ × ℕ)
decode_path_len_byte value =
    let path_len = value % 64 in
    let size_code = (value / 64) % 4 in
    let bytes_per_hop = size_code + 1 in
    if ltb bytes_per_hop 1 || ltb 3 bytes_per_hop
    then err (invalid_bytes_per_hop bytes_per_hop)
    else ok (path_len, bytes_per_hop)

-- A little-endian 16-bit number; the two bytes do not overlap, so `|` is a sum.
abbrev pub uint16_at : Bytes → ℕ → ℕ
uint16_at raw i = get_or raw i 0 + get_or raw (i + 1) 0 * 256

-- The transport codes, if the route has them, and the offset behind them.
read_transport : Bytes → ℕ → ℕ → Decoded (Option (ℕ × ℕ) × ℕ)
read_transport raw route_type offset =
    if route_type == route_type_flood || route_type == route_type_direct
    then if ltb (length raw) (offset + 4)
      then err missing_transport_codes
      else ok (some (uint16_at raw offset, uint16_at raw (offset + 2)), offset + 4)
    else ok (none, offset)

-- The loop over the hops: `rounds` are left, and the next one starts at `start`.
group_path : ℕ → ℕ → ℕ → Bytes → List Bytes
group_path zero bytes_per_hop start path_bytes = []
group_path (suc rounds) bytes_per_hop start path_bytes =
    encode_to_string (take bytes_per_hop (drop start path_bytes))
    ∷ group_path rounds bytes_per_hop (start + bytes_per_hop) path_bytes

build_packet : Bytes → ℕ → Option (ℕ × ℕ) → ℕ → ℕ → ℕ → Packet
unfolding group_path payload_type_name_of route_type_name_of
build_packet raw header codes path_len bytes_per_hop offset =
    let path_byte_length = path_len * bytes_per_hop in
    let path_bytes = take path_byte_length (drop offset raw) in
    let payload_bytes = drop (offset + path_byte_length) raw in
    record {
      header = header;
      payload_version = (header / 64) % 4;
      payload_type = (header / 4) % 16;
      payload_type_name = payload_type_name_of ((header / 4) % 16);
      route_type = header % 4;
      route_type_name = route_type_name_of (header % 4);
      transport_codes = codes;
      path_len = path_len;
      bytes_per_hop = bytes_per_hop;
      path_byte_length = path_byte_length;
      path = group_path path_len bytes_per_hop 0 path_bytes;
      path_hex = encode_to_string path_bytes;
      payload_hex = encode_to_string payload_bytes;
      payload_bytes = payload_bytes;
    }

-- `DecodePacket` from the path length byte on, which stands at `offset`.
decode_path : Bytes → ℕ → Option (ℕ × ℕ) → ℕ → Decoded Packet
unfolding build_packet decode_path_len_byte
decode_path raw header codes offset = do
  fail_if (leb (length raw) offset) missing_path_length_byte
  (path_len, bytes_per_hop) ← decode_path_len_byte (get_or raw offset 0)
  fail_if (ltb (length raw) (offset + 1 + path_len * bytes_per_hop)) path_bytes_out_of_bounds
  ok (build_packet raw header codes path_len bytes_per_hop (offset + 1))

-- `DecodePacket` from the version test on.
decode_header : Bytes → ℕ → Decoded Packet
decode_header raw header = do
  fail_if (not ((header / 64) % 4 == payload_version_v1))
      (unsupported_payload_version ((header / 64) % 4))
  (codes, offset) ← read_transport raw (header % 4) 1
  decode_path raw header codes offset

-- `DecodePacket` from the decoded bytes on.
pub decode_bytes : Bytes → Decoded Packet
decode_bytes raw = do
  fail_if (ltb (length raw) 2) packet_too_short
  decode_header raw (get_or raw 0 0)

unfoldable pub decode_packet : Bytes → Decoded Packet
unfolding decode_bytes decode_header read_transport decode_path trim_prefix trim_space decode_string
    same
decode_packet payload_hex =
    let normalized = trim_prefix (trim_space payload_hex) (codes "0x") in
    if same normalized []
    then err empty_payload_hex
    else elim (decode_string normalized) [ none ↦ err decode_hex | some raw ↦ decode_bytes raw ]

unfoldable pub hash_packet : Platform → Bytes → Bytes
hash_packet p payload_hex = encode_to_string (p.sha256 (to_lower p (trim_space payload_hex)))
