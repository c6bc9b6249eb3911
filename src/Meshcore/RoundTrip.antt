-- ===== src/Meshcore/RoundTrip.antt =====
-- The decoder on the hexadecimal text of an encoded packet.
use mesh_monday.Base.{
  ℕ, ◌≡◌, refl, ◌∙◌, List, [], ◌∷◌, Option, none, some, arith, Bytes, All, All-append, ok, same,
}
use mesh_monday.Go.Trim.Plain.{trim_space-visible}
use mesh_monday.Go.Hex.{
  IsByte, encode_to_string, decode_string-encode_to_string, encode_to_string-IsVisible,
  trim_prefix-encode_to_string,
}
use mesh_monday.Meshcore.{decode_packet, decode_bytes}
use mesh_monday.Meshcore.Wire.{
  Wire, IsWire, encode, encode_codes, concat, CodesFit, packet_of, decode_bytes-encode,
}

-- The parts that the encoder copies are bytes.
abbrev pub HasBytes : Wire → Type 0
HasBytes w = All (All IsByte) w.hops × All IsByte w.payload

concat-IsByte : (hops : List Bytes) → All (All IsByte) hops → All IsByte (concat hops)
concat-IsByte [] h = tt
concat-IsByte (x ∷ hops) (hx, hh) = All-append IsByte x (concat hops) hx (concat-IsByte hops hh)

encode_codes-IsByte :
    (route : ℕ) (c : Option (ℕ × ℕ)) → CodesFit route c → All IsByte (encode_codes c)
encode_codes-IsByte route none h = tt
encode_codes-IsByte route (some (a, b)) h = omega arith

pub encode-IsByte : (w : Wire) → IsWire w → HasBytes w → All IsByte (encode w)
unfolding encode
encode-IsByte w v (hops, payload) = (
  omega (arith, v.payload_type, v.route_type),
  All-append IsByte (encode_codes w.codes) _ (encode_codes-IsByte w.route_type w.codes v.codes) (
    omega (arith, v.few_hops, v.few_bytes),
    All-append IsByte (concat w.hops) w.payload (concat-IsByte w.hops hops) payload,
  ),
)

decode_packet-hex :
    (c : ℕ) (s : Bytes)
    → All IsByte (c ∷ s)
    → decode_packet (encode_to_string (c ∷ s)) ≡ decode_bytes (c ∷ s)
unfolding decode_packet
decode_packet-hex c s h = rw (trim_space-visible _ (encode_to_string-IsVisible (c ∷ s) h)) (
    rw (trim_prefix-encode_to_string (c ∷ s) h)
      (rw (decode_string-encode_to_string (c ∷ s) h) (unfold same encode_to_string in refl)))

-- The hexadecimal text of any well-formed packet, its fields made of bytes, decodes to that
-- packet.
pub decode_packet-encode :
    (w : Wire)
    → IsWire w
    → HasBytes w
    → decode_packet (encode_to_string (encode w)) ≡ ok (packet_of w)
unfolding encode
decode_packet-encode w v h = decode_packet-hex _ _ (encode-IsByte w v h) ∙ decode_bytes-encode w v
