-- ===== src/Meshcore/Wire.antt =====
-- The wire format of a packet, written down apart from the decoder: what a sender puts into each
-- byte. Decoding an encoded packet gives back its parts.
use mesh_monday.Base.{
  ℕ, ◌+◌, ◌-◌, ◌*◌, ◌/◌, ◌%◌, ◌≤◌, ◌<◌, ◌≡◌, refl, ap, ap₂, ◌∙◌, subst, ◌⊎◌, inl, inr, List, [],
  ◌∷◌, ◌++◌, append_assoc, map, Option, none, some, arith, Bytes, length, take, drop, take-append,
  drop-append, get_or-append, length-append, All, ok, Option-cases,
}
use mesh_monday.Go.Hex.{encode_to_string}
use mesh_monday.Meshcore.{
  Packet, Decoded, decode_bytes, decode_header, decode_path, decode_path_len_byte, read_transport,
  build_packet, group_path, payload_type_name_of, route_type_name_of,
}

pub record Wire : Type 0 where
  pub payload_type : ℕ
  pub route_type : ℕ
  pub codes : Option (ℕ × ℕ)
  pub bytes_per_hop : ℕ
  pub hops : List Bytes
  pub payload : Bytes

abbrev pub concat : List Bytes → Bytes
concat [] = []
concat (h ∷ hs) = h ++ concat hs

abbrev pub encode_codes : Option (ℕ × ℕ) → Bytes
encode_codes none = []
encode_codes (some (a, b)) = a % 256 ∷ a / 256 ∷ b % 256 ∷ b / 256 ∷ []

abbrev pub encode_header : Wire → ℕ
encode_header w = w.payload_type * 4 + w.route_type

abbrev pub encode_path_len : Wire → ℕ
encode_path_len w = length w.hops + (w.bytes_per_hop - 1) * 64

unfoldable pub encode : Wire → Bytes
encode w =
    encode_header w ∷ encode_codes w.codes ++ (encode_path_len w ∷ (concat w.hops ++ w.payload))

-- Transport codes go with the routes 0 and 3, and with no other.
abbrev pub CodesFit : ℕ → Option (ℕ × ℕ) → Type 0
CodesFit route none = (0 < route) × (route < 3)
CodesFit route (some (a, b)) = ((route ≡ 0) ⊎ (route ≡ 3)) × (a < 65536) × (b < 65536)

pub record IsWire (w : Wire) : Type 0 where
  pub payload_type : w.payload_type < 16
  pub route_type : w.route_type < 4
  pub codes : CodesFit w.route_type w.codes
  pub some_bytes : 1 ≤ w.bytes_per_hop
  pub few_bytes : w.bytes_per_hop ≤ 3
  pub few_hops : length w.hops < 64
  pub same_size : All (λ h. length h ≡ w.bytes_per_hop) w.hops

-- The packet that the decoder should build.
abbrev pub packet_of : Wire → Packet
packet_of w = record {
  header = encode_header w;
  payload_version = 0;
  payload_type = w.payload_type;
  payload_type_name = payload_type_name_of w.payload_type;
  route_type = w.route_type;
  route_type_name = route_type_name_of w.route_type;
  transport_codes = w.codes;
  path_len = length w.hops;
  bytes_per_hop = w.bytes_per_hop;
  path_byte_length = length w.hops * w.bytes_per_hop;
  path = map encode_to_string w.hops;
  path_hex = encode_to_string (concat w.hops);
  payload_hex = encode_to_string w.payload;
  payload_bytes = w.payload;
}

length-concat :
    (n : ℕ) (hops : List Bytes)
    → All (λ h. length h ≡ n) hops
    → length (concat hops) ≡ length hops * n
length-concat n [] h = omega arith
length-concat n (x ∷ hops) (hx, hh) =
    omega (arith, length-append x (concat hops), length-concat n hops hh)

group_path-concat :
    (n : ℕ) (pre : Bytes) (hops : List Bytes) (start : ℕ)
    → length pre ≡ start
    → All (λ h. length h ≡ n) hops
    → group_path (length hops) n start (pre ++ concat hops) ≡ map encode_to_string hops
unfolding group_path
group_path-concat n pre [] start e h = refl
group_path-concat n pre (x ∷ hops) start e (hx, hh) =
    ap₂ ◌∷◌ (rw (drop-append start pre (x ++ concat hops) e, take-append n x (concat hops) hx)) (
      rw (← append_assoc pre x (concat hops))
        (group_path-concat n (pre ++ x) hops (start + n) (omega (arith, length-append pre x)) hh))

decode_path_len_byte-encode :
    (len n : ℕ) → len < 64 → 1 ≤ n → n ≤ 3 → decode_path_len_byte (len + (n - 1) * 64) ≡ ok (len, n)
unfolding decode_path_len_byte
decode_path_len_byte-encode len n h p q = ground arith

module _ (w : Wire) (v : IsWire w) (pre : Bytes) (k : ℕ) (e : length pre ≡ k) where
  abbrev tail_of : Bytes
  tail_of = concat w.hops ++ w.payload

  abbrev raw_of : Bytes
  raw_of = pre ++ (encode_path_len w ∷ tail_of)

  length-raw_of : length raw_of ≡ k + 1 + length w.hops * w.bytes_per_hop + length w.payload
  length-raw_of = omega (
    arith,
    length-append pre (encode_path_len w ∷ tail_of),
    length-append (concat w.hops) w.payload,
    length-concat w.bytes_per_hop w.hops v.same_size,
  )

  drop-raw_of : drop (k + 1) raw_of ≡ tail_of
  drop-raw_of = rw (← append_assoc pre (encode_path_len w ∷ []) tail_of) (
      drop-append (k + 1) (pre ++ encode_path_len w ∷ []) tail_of
        (omega (arith, length-append pre (encode_path_len w ∷ []))))

  decode_path-encode :
      (header : ℕ) (codes : Option (ℕ × ℕ))
      → decode_path raw_of header codes k
        ≡ ok (build_packet raw_of header codes (length w.hops) w.bytes_per_hop (k + 1))
  unfolding decode_path
  decode_path-encode header codes = rw (get_or-append k pre (encode_path_len w) tail_of 0 e) (
      rw
        (decode_path_len_byte-encode (length w.hops) w.bytes_per_hop v.few_hops v.some_bytes
          v.few_bytes)
        (ground (arith, length-raw_of)))

  path-raw_of : take (length w.hops * w.bytes_per_hop) (drop (k + 1) raw_of) ≡ concat w.hops
  path-raw_of = rw drop-raw_of (
      take-append (length w.hops * w.bytes_per_hop) (concat w.hops) w.payload
        (length-concat w.bytes_per_hop w.hops v.same_size))

  payload-raw_of : drop (k + 1 + length w.hops * w.bytes_per_hop) raw_of ≡ w.payload
  payload-raw_of = rw (← append_assoc pre (encode_path_len w ∷ concat w.hops) w.payload) (
      drop-append (k + 1 + length w.hops * w.bytes_per_hop)
        (pre ++ (encode_path_len w ∷ concat w.hops)) w.payload
        (omega (
          arith,
          length-append pre (encode_path_len w ∷ concat w.hops),
          length-concat w.bytes_per_hop w.hops v.same_size,
        )))

  header_fields :
      ((encode_header w / 64) % 4 ≡ 0)
      × ((encode_header w / 4) % 16 ≡ w.payload_type)
      × (encode_header w % 4 ≡ w.route_type)
  header_fields = omega (arith, v.payload_type, v.route_type)

  build_packet-encode :
      build_packet raw_of (encode_header w) w.codes (length w.hops) w.bytes_per_hop (k + 1)
      ≡ packet_of w
  unfolding build_packet
  build_packet-encode =
      rw (path-raw_of, payload-raw_of, header_fields.0, header_fields.1, header_fields.2)
        (rw (group_path-concat w.bytes_per_hop [] w.hops 0 refl v.same_size))

  decode_path-packet_of : decode_path raw_of (encode_header w) w.codes k ≡ ok (packet_of w)
  decode_path-packet_of = decode_path-encode (encode_header w) w.codes ∙ ap ok build_packet-encode

module _ (w : Wire) (v : IsWire w) where
  decode_bytes_plain :
      w.codes ≡ none
      → decode_bytes (encode_header w ∷ encode_path_len w ∷ tail_of w v [] 0 refl)
        ≡ ok (packet_of w)
  unfolding decode_bytes decode_header read_transport
  decode_bytes_plain e =
      let fit = subst (CodesFit w.route_type) e v.codes in
      ground (
        arith,
        e,
        fit,
        header_fields w v [] 0 refl,
        decode_path-packet_of w v (encode_header w ∷ []) 1 refl,
      )

  decode_bytes_coded :
      (a b : ℕ)
      → w.codes ≡ some (a, b)
      → decode_bytes (
          encode_header w ∷ encode_codes (some (a, b))
          ++ (encode_path_len w ∷ tail_of w v [] 0 refl))
        ≡ ok (packet_of w)
  unfolding decode_bytes decode_header read_transport
  decode_bytes_coded a b e =
      let fit = subst (CodesFit w.route_type) e v.codes in
      ground (
        arith,
        e,
        fit,
        header_fields w v [] 0 refl,
        decode_path-packet_of w v (encode_header w ∷ encode_codes (some (a, b))) 5 refl,
      )

-- Decoding the bytes of any well-formed packet succeeds, and gives its header fields, its
-- transport codes, its hops in order and its payload.
pub decode_bytes-encode : (w : Wire) → IsWire w → decode_bytes (encode w) ≡ ok (packet_of w)
unfolding encode
decode_bytes-encode w v = elim (Option-cases w.codes) [
  | inl e ↦ ap with_codes e ∙ decode_bytes_plain w v e
  | inr ((a, b), e) ↦ ap with_codes e ∙ decode_bytes_coded w v a b e
]
  where
    with_codes : Option (ℕ × ℕ) → Decoded Packet
    with_codes c =
        decode_bytes
          (encode_header w ∷ encode_codes c ++ (encode_path_len w ∷ (concat w.hops ++ w.payload)))
