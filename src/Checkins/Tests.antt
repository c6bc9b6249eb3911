-- ===== src/Checkins/Tests.antt =====
-- The vectors of internal/checkins/service_test.go that need no cipher.
use mesh_monday.Base.{◌≡◌, refl, none, some, codes, same}
use mesh_monday.Platform.{Platform}
use mesh_monday.Checkins.Text.{
  Candidate, sanitize_text, normalize_username, parse_candidate_from_text, parse_sender_and_message,
  has_mesh_monday_tag,
}
use mesh_monday.Checkins.Extract.{extract_from_payload}
use mesh_monday.Go.Text.{contains, to_lower}
use mesh_monday.Go.Utf8.{rune_count}
use mesh_monday.Go.Text.{index, contains_any}
use mesh_monday.Go.Hex.{decode_string}
use mesh_monday.Go.Trim.{trim_space}

-- A platform whose cipher and hash are identities and whose text is ASCII.
abbrev pub plain : Platform
plain = record {
  lower_unicode = λ s. s;
  upper_unicode = λ s. s;
  sha256 = λ s. s;
  hmac_sha256 = λ k s. s;
  aes_decrypt = λ k s. s;
  json_envelope = λ s. none;
  json_object = λ s. none;
  load_location = λ s. none;
}

abbrev pub avery : Candidate
avery = record {
  username = codes "avery";
  display_name = codes "Avery";
  message = codes "hello mesh #meshmonday";
}

pub extract_avery :
    extract_from_payload plain (codes "41766572793a2068656c6c6f206d65736820236d6573686d6f6e646179")
    ≡ some avery
unfolding extract_from_payload decode_string trim_space sanitize_text parse_candidate_from_text
    parse_sender_and_message has_mesh_monday_tag normalize_username contains to_lower same
    rune_count index contains_any
extract_avery = refl
