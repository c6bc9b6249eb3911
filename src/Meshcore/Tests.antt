-- ===== src/Meshcore/Tests.antt =====
-- The vectors of internal/meshcore/decode_test.go and of the compatibility test.
use mesh_monday.Base.{ℕ, ◌≡◌, refl, some, codes, ok, Result, err, List, [], ◌∷◌, Bytes, arith}
use mesh_monday.Go.Hex.{encode_to_string}
use mesh_monday.Meshcore.Wire.{Wire, IsWire, encode, packet_of, decode_bytes-encode}
use mesh_monday.Meshcore.RoundTrip.{encode-IsByte, decode_packet-encode}
use mesh_monday.Meshcore.Lossless.{reassemble, decode_bytes_lossless}
use mesh_monday.Meshcore.{
  Packet, Decoded, decode_path_len_byte, decode_bytes, decode_packet, DecodeError,
  empty_payload_hex,
}

path_len_0x82 : decode_path_len_byte 0x82 ≡ ok (2, 3)
unfolding decode_path_len_byte
path_len_0x82 = refl

type_and_route : Decoded Packet → Result DecodeError (List ℕ × List ℕ)
type_and_route (ok p) = ok (p.payload_type_name, p.route_type_name)
type_and_route (err e) = err e

text_packet :
    type_and_route (decode_packet (codes "110041766572793a206869"))
    ≡ ok (codes "ADVERT", codes "FLOOD")
unfolding type_and_route decode_packet
text_packet = refl

empty_packet : decode_packet (codes "  ") ≡ err empty_payload_hex
unfolding decode_packet
empty_packet = refl

-- A transport packet with two hops of three bytes.
abbrev two_hops : Wire
two_hops = record {
  payload_type = 5;
  route_type = 0;
  codes = some (0x1234, 0xABCD);
  bytes_per_hop = 3;
  hops = (1 ∷ 2 ∷ 3 ∷ []) ∷ (4 ∷ 5 ∷ 6 ∷ []) ∷ [];
  payload = 0x41 ∷ 0x42 ∷ [];
}

two_hops-IsWire : IsWire two_hops
two_hops-IsWire = omega arith

decode_packet-encode_example :
    decode_packet (encode_to_string (encode two_hops)) ≡ ok (packet_of two_hops)
decode_packet-encode_example = decode_packet-encode two_hops two_hops-IsWire (omega arith)

two_hops_bytes : decode_bytes (encode two_hops) ≡ ok (packet_of two_hops)
two_hops_bytes = decode_bytes-encode two_hops two_hops-IsWire

decode_bytes_lossless_example :
    (path : Bytes) × ((packet_of two_hops).path_hex ≡ encode_to_string path)
    × (encode two_hops ≡ reassemble (packet_of two_hops) path)
decode_bytes_lossless_example =
    decode_bytes_lossless (encode two_hops) (packet_of two_hops)
      (encode-IsByte two_hops two_hops-IsWire (omega arith)) two_hops_bytes
