-- ===== src/Config/Validate/Accepted.antt =====
-- What the rest of the program relies on once a configuration was accepted.
use mesh_monday.Base.{
  ℕ, ◌≤◌, ◌≡◌, refl, inl, inr, arith, Bool, true, false, not, ◌&&◌, ◌||◌, same, codes, List, [],
  ◌∷◌, some, Option-cases, Bytes, ltb, ◌==◌, length, Result, ok, fail_if, ◌>>◌, >>=-ok, All,
}
use mesh_monday.Base.Int.{ℤ, pos, negsuc, ltb_ℤ}
use mesh_monday.Platform.{Platform}
use mesh_monday.Go.Text.{to_lower}
use mesh_monday.Go.Trim.{trim_space}
use mesh_monday.Go.Hex.{decode_string, length-decode_string}
use mesh_monday.Config.{Config}
use mesh_monday.Config.Validate.{
  ConfigError, missing_credentials, empty_mesh_name, invalid_dicebear_style, negative_ui_poll,
  empty_topic, is_slug, validate, check_numbers, check_filters, check_key, check_keys,
}

-- A step that checks: it passed, and the rest did.
passed :
    (b : Bool) (e : ConfigError) (rest : Result ConfigError (Unit {0}))
    → (fail_if b e >> rest) ≡ ok tt
    → (b ≡ false) × (rest ≡ ok tt)
passed true e rest h = cc
passed false e rest h = (refl, h)

-- The key as it is used decodes to the sixteen bytes of an AES-128 key.
abbrev pub IsSecret : Platform → Bytes → Type 0
IsSecret p raw =
    (bytes : Bytes) × ((decode_string (to_lower p (trim_space raw)) ≡ some bytes)
      × (length bytes ≡ 16))

check_key-IsSecret : (p : Platform) (raw : Bytes) → check_key p raw ≡ ok tt → IsSecret p raw
unfolding check_key
check_key-IsSecret p raw h =
    let value = to_lower p (trim_space raw) in
    let (long, decodes) = passed (not (length value == 32)) _ _ h in
    elim (Option-cases (decode_string value)) [
      | inl e ↦ let refused = rw e at decodes in cc
      | inr (bytes, e) ↦ (bytes, (e, ground (arith, long, length-decode_string value e)))
    ]

check_keys-IsSecret :
    (p : Platform) (keys : List Bytes) → check_keys p keys ≡ ok tt → All (IsSecret p) keys
unfolding check_keys
check_keys-IsSecret p [] h = tt
check_keys-IsSecret p (raw ∷ keys) h =
    let (u, first, rest) = >>=-ok (check_key p raw) (λ _. check_keys p keys) h in
    (check_key-IsSecret p raw first, check_keys-IsSecret p keys rest)

abbrev pub IsRegion : Bytes → Type 0
IsRegion iata = (3 ≤ length iata) × (length iata ≤ 4)

check_filters-IsRegion :
    (filters : List Bytes) → check_filters filters ≡ ok tt → All IsRegion filters
unfolding check_filters
check_filters-IsRegion [] h = tt
check_filters-IsRegion (iata ∷ filters) h =
    let (fits, rest) = passed (ltb (length iata) 3 || ltb 4 (length iata)) _ _ h in
    ((ground (arith, fits), ground (arith, fits)), check_filters-IsRegion filters rest)

-- The number is between the two bounds.
abbrev pub IsBetween : ℕ → ℤ → ℕ → Type 0
IsBetween low i high = (n : ℕ) × ((i ≡ pos n) × ((low ≤ n) × (n ≤ high)))

abbrev pub IsAtLeast : ℕ → ℤ → Type 0
IsAtLeast low i = (n : ℕ) × ((i ≡ pos n) × (low ≤ n))

at_least : (low : ℕ) (i : ℤ) → ltb_ℤ i (pos low) ≡ false → IsAtLeast low i
at_least low (pos n) e = (n, (refl, ground (arith, e)))
at_least low (negsuc n) e = absurd (ground (arith, e))

between :
    (high : ℕ) (i : ℤ) → ltb_ℤ i (pos 0) ≡ false → ltb_ℤ (pos high) i ≡ false → IsBetween 0 i high
between high (pos n) e f = (n, (refl, (omega arith, ground (arith, f))))
between high (negsuc n) e f = absurd (ground (arith, e))

check_numbers_passed :
    (c : Config) (rest : Result ConfigError (Unit {0}))
    → check_numbers c rest ≡ ok tt
    → IsAtLeast 256 c.mqtt_max_payload_bytes
      × (IsAtLeast 64 c.ingest_max_packet_hex
          × (IsAtLeast 8 c.ingest_max_observer
              × (IsBetween 0 c.raw_monday_retain_weeks 1040
                  × (IsAtLeast 60000000000 c.retention_interval × (rest ≡ ok tt)))))
unfolding check_numbers
check_numbers_passed c rest h =
    let (payload, h1) = passed _ _ _ h in
    let (packet, h2) = passed _ _ _ h1 in
    let (observer, h3) = passed _ _ _ h2 in
    let (low, h4) = passed _ _ _ h3 in
    let (high, h5) = passed _ _ _ h4 in
    let (interval, h6) = passed _ _ _ h5 in
    (
      at_least 256 _ payload,
      (
        at_least 64 _ packet,
        (at_least 8 _ observer, (between 1040 _ low high, (at_least 60000000000 _ interval, h6))),
      ),
    )

pub record IsAccepted (p : Platform) (c : Config) : Type 0 where
  pub payload : IsAtLeast 256 c.mqtt_max_payload_bytes
  pub packet_hex : IsAtLeast 64 c.ingest_max_packet_hex
  pub observer : IsAtLeast 8 c.ingest_max_observer
  pub retention : IsBetween 0 c.raw_monday_retain_weeks 1040
  pub interval : IsAtLeast 60000000000 c.retention_interval
  pub regions : All IsRegion c.iata_filters
  pub secrets : All (IsSecret p) c.private_channel_keys

-- If a configuration is accepted, the limits and the retention are natural numbers within their bounds,
-- each region has three or four bytes, and each private key decodes to sixteen bytes.
pub validate-IsAccepted : (p : Platform) (c : Config) → validate p c ≡ ok tt → IsAccepted p c
unfolding validate
validate-IsAccepted p c h =
    let production = same c.app_env (codes "production") in
    let anonymous = same c.mqtt_username [] || same c.mqtt_password [] in
    let h1 = (passed (production && anonymous) missing_credentials _ h).1 in
    let h2 = (passed (same (trim_space c.mesh_name) []) empty_mesh_name _ h1).1 in
    let h3 = (passed (not (is_slug c.dicebear_style)) invalid_dicebear_style _ h2).1 in
    let h4 = (passed (ltb_ℤ c.ui_poll_seconds (pos 0)) negative_ui_poll _ h3).1 in
    let h5 = (passed (same (trim_space c.mqtt_topic_template) []) empty_topic _ h4).1 in
    let (payload, (packet_hex, (observer, (retention, (interval, h6))))) =
      check_numbers_passed c _ h5 in
    let (u, filters, keys) =
      >>=-ok (check_filters c.iata_filters) (λ _. check_keys p c.private_channel_keys) h6 in
    record {
      payload = payload;
      packet_hex = packet_hex;
      observer = observer;
      retention = retention;
      interval = interval;
      regions = check_filters-IsRegion c.iata_filters filters;
      secrets = check_keys-IsSecret p c.private_channel_keys keys;
    }
