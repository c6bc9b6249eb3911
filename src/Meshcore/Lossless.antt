-- ===== src/Meshcore/Lossless.antt =====
-- What a decoded packet says about the bytes that it was decoded from: nothing is lost, nothing
-- overlaps, and nothing is invented.
use Prim.Native.Nat.add
use native.Mathlib.Numerals.{add-one}
use mesh_monday.Base.{
  ℕ, zero, suc, ◌+◌, ◌-◌, ◌*◌, ◌/◌, ◌%◌, ◌≤◌, ◌<◌, ◌≡◌, refl, ap, ap₂, sym, subst, ◌∙◌, List, [],
  ◌∷◌, ◌++◌, Option, some, arith, Bytes, length, take, drop, get_or, take-append-drop, length-take,
  length-drop, All, ok, >>=-ok, fail_if-ok, guard-ok, ltb, leb, ◌==◌, not,
}
use mesh_monday.Go.Hex.{IsByte, encode_to_string}
use mesh_monday.Meshcore.{
  Packet, decode_bytes, decode_header, decode_path, decode_path_len_byte, read_transport,
  build_packet, payload_version_v1,
}
use mesh_monday.Meshcore.Wire.{encode_codes}

-- The bytes of a packet, put together again from its fields and the bytes of its path.
abbrev pub reassemble : Packet → Bytes → Bytes
reassemble p path =
    p.header ∷ encode_codes p.transport_codes
    ++ ((p.path_len + (p.bytes_per_hop - 1) * 64) ∷ (path ++ p.payload_bytes))

decode_path_len_byte_inv :
    (b n k : ℕ)
    → b < 256
    → decode_path_len_byte b ≡ ok (n, k)
    → (b ≡ n + (k - 1) * 64) × (1 ≤ k) × (k ≤ 3) × (n < 64)
unfolding decode_path_len_byte
decode_path_len_byte_inv b n k h e = ground arith

drop_at {ℓ} :
    {A : Type ℓ} (k : ℕ) (xs : List A) (d : A)
    → k < length xs
    → drop k xs ≡ get_or xs k d ∷ drop (suc k) xs
drop_at zero [] d h = absurd (omega arith)
drop_at zero (x ∷ xs) d h = refl
drop_at (suc k) [] d h = absurd (omega arith)
drop_at (suc k) (x ∷ xs) d h = drop_at k xs d (omega arith)

get_or-IsByte : (xs : Bytes) (k : ℕ) → All IsByte xs → get_or xs k 0 < 256
get_or-IsByte [] k h = omega arith
get_or-IsByte (x ∷ xs) zero h = h.0
get_or-IsByte (x ∷ xs) (suc k) h = get_or-IsByte xs k h.1

drop-nil {ℓ} : {A : Type ℓ} (n : ℕ) → [] ≡ drop {A = A} n []
drop-nil zero = refl
drop-nil (suc n) = refl

drop-add {ℓ} : {A : Type ℓ} (m n : ℕ) (xs : List A) → drop (m + n) xs ≡ drop n (drop m xs)
drop-add zero n xs = ap (λ m. drop m xs) (add.zero n)
drop-add (suc m) n [] = ap (λ k. drop k []) (add.suc m n) ∙ drop-nil n
drop-add (suc m) n (x ∷ xs) = ap (λ k. drop k (x ∷ xs)) (add.suc m n) ∙ drop-add m n xs

decode_path_inv :
    (raw : Bytes) (header : ℕ) (codes : Option (ℕ × ℕ)) (offset : ℕ) (p : Packet)
    → decode_path raw header codes offset ≡ ok p
    → (n k : ℕ) × (offset < length raw)
      × (decode_path_len_byte (get_or raw offset 0) ≡ ok (n, k))
      × (offset + 1 + n * k ≤ length raw)
      × (p ≡ build_packet raw header codes n k (offset + 1))
unfolding decode_path
decode_path_inv raw header codes offset p h =
    let (u, inside, h') = >>=-ok _ _ h in
    let ((n, k), path_len, h'') = >>=-ok _ _ h' in
    let (u', fits, built) = >>=-ok _ _ h'' in
    let inside' = fail_if-ok (leb (length raw) offset) _ inside in
    let fits' = fail_if-ok (ltb (length raw) (offset + 1 + n * k)) _ fits in
    (n, k, ground arith, path_len, ground arith, ground arith)

-- The path length byte, the path and the payload are what stands from `offset` on.
abbrev Reads : Bytes → ℕ → Option (ℕ × ℕ) → ℕ → Packet → Type 0
Reads raw header codes offset p =
    (path : Bytes) × (p.path_hex ≡ encode_to_string path)
    × (length path ≡ p.path_len * p.bytes_per_hop)
    × (drop offset raw ≡ (p.path_len + (p.bytes_per_hop - 1) * 64) ∷ (path ++ p.payload_bytes))
    × (p.header ≡ header)
    × (p.transport_codes ≡ codes)

build_packet-Reads :
    (raw : Bytes) (header : ℕ) (codes : Option (ℕ × ℕ)) (n k offset : ℕ)
    → offset < length raw
    → get_or raw offset 0 ≡ n + (k - 1) * 64
    → offset + 1 + n * k ≤ length raw
    → Reads raw header codes offset (build_packet raw header codes n k (offset + 1))
unfolding build_packet
build_packet-Reads raw header codes n k offset inside byte fits =
    let rest : Bytes = drop (offset + 1) raw in
    let split : take (n * k) rest ++ drop (offset + 1 + n * k) raw ≡ drop (suc offset) raw =
      rw (drop-add (offset + 1) (n * k) raw)
        (take-append-drop (n * k) rest ∙ ap (λ m. drop m raw) (add-one offset)) in
    (
      take (n * k) rest,
      refl,
      omega (arith, length-take (n * k) rest, length-drop (offset + 1) raw),
      drop_at offset raw 0 inside ∙ ap₂ ◌∷◌ byte (sym split),
      refl,
      refl,
    )

decode_path-Reads :
    (raw : Bytes) (header : ℕ) (codes : Option (ℕ × ℕ)) (offset : ℕ) (p : Packet)
    → All IsByte raw
    → decode_path raw header codes offset ≡ ok p
    → Reads raw header codes offset p
decode_path-Reads raw header codes offset p bytes h =
    let (n, k, inside, path_len, fits, built) = decode_path_inv raw header codes offset p h in
    let byte =
      decode_path_len_byte_inv (get_or raw offset 0) n k (get_or-IsByte raw offset bytes)
        path_len in
    subst (Reads raw header codes offset) (sym built)
      (build_packet-Reads raw header codes n k offset inside byte.0 fits)

encode_codes_of :
    (a b c d : ℕ) (rest : Bytes)
    → All IsByte (a ∷ b ∷ c ∷ d ∷ [])
    → encode_codes (some (a + b * 256, c + d * 256)) ++ rest ≡ a ∷ b ∷ c ∷ d ∷ rest
encode_codes_of a b c d rest h = ground arith

read_transport_inv :
    (raw : Bytes) (route : ℕ) (codes : Option (ℕ × ℕ)) (offset : ℕ)
    → All IsByte raw
    → read_transport raw route 1 ≡ ok (codes, offset)
    → drop 1 raw ≡ encode_codes codes ++ drop offset raw
unfolding read_transport
read_transport_inv (x ∷ a ∷ b ∷ c ∷ d ∷ raw) route codes offset bytes h =
    let (hx, (ha, (hb, (hc, (hd, _))))) = bytes in
    ground (arith, encode_codes_of a b c d raw (ha, (hb, (hc, (hd, tt)))))
read_transport_inv raw route codes offset bytes h = ground arith

decode_header_inv :
    (raw : Bytes) (header : ℕ) (p : Packet)
    → decode_header raw header ≡ ok p
    → (codes : Option (ℕ × ℕ)) × (offset : ℕ) × (read_transport raw (header % 4) 1
        ≡ ok (codes, offset))
      × (decode_path raw header codes offset ≡ ok p)
unfolding decode_header
decode_header_inv raw header p h =
    let (version, h') = guard-ok (not ((header / 64) % 4 == payload_version_v1)) _ _ h in
    let ((codes, offset), transport, h'') = >>=-ok _ _ h' in (codes, offset, transport, h'')

-- Whatever bytes decode, the header, the transport codes, the path length byte, the path and the
-- payload of the packet spell them again, with nothing left out and nothing added.
pub decode_bytes_lossless :
    (raw : Bytes) (p : Packet)
    → All IsByte raw
    → decode_bytes raw ≡ ok p
    → (path : Bytes) × (p.path_hex ≡ encode_to_string path) × (raw ≡ reassemble p path)
unfolding decode_bytes
decode_bytes_lossless [] p bytes h = cc
decode_bytes_lossless (c ∷ raw) p bytes h =
    let (long, h1) = guard-ok (ltb (length (c ∷ raw)) 2) _ _ h in
    let (codes, offset, transport, h2) = decode_header_inv (c ∷ raw) c p h1 in
    let (path, hex, len, rest, eh, ec) = decode_path-Reads (c ∷ raw) c codes offset p bytes h2 in
    let whole = read_transport_inv (c ∷ raw) _ codes offset bytes transport in
    (path, hex, ap₂ ◌∷◌ (sym eh) (whole ∙ ap₂ (λ x y. encode_codes x ++ y) (sym ec) rest))
