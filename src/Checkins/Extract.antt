-- ===== src/Checkins/Extract.antt =====
-- Check-ins in packets: internal/checkins/service.go, `ExtractFromPacket` and what it calls.
use mesh_monday.Base.{
  ℕ, zero, suc, ◌-◌, ◌/◌, ◌%◌, Bool, false, not, ◌&&◌, ◌||◌, List, [], ◌∷◌, ◌++◌, Option, none,
  some, Bytes, codes, ltb, leb, ◌==◌, if◌then◌else◌, same, length, take, drop, get_or, replicate,
}
use mesh_monday.Platform.{Platform}
use mesh_monday.Go.Trim.{trim_space}
use mesh_monday.Go.Hex.{decode_string}
use mesh_monday.Checkins.Text.{
  Candidate, normalize_username, sanitize_text, string_value, has_mesh_monday_tag,
  parse_sender_and_message, parse_candidate_from_text, decode_null_terminated_utf8,
}

abbrev pub payload_type_group_text : ℕ
payload_type_group_text = 5

abbrev block_size : ℕ
block_size = 16

-- The MAC is the first two bytes of an HMAC under the key, padded with zeros to 32 bytes.
unfoldable pub verify_meshcore_mac : Platform → Bytes → Bytes → Bytes → Bool
verify_meshcore_mac p key16 ciphertext expected =
    if ltb (length expected) 2
    then false
    else let key = take 16 key16 in
      let channel_secret = key ++ replicate (32 - length key) 0 in
      let sum = p.hmac_sha256 channel_secret ciphertext in
      leb 2 (length sum)
      && get_or sum 0 0 == get_or expected 0 0
      && get_or sum 1 0 == get_or expected 1 0

decrypt_blocks : Platform → Bytes → ℕ → Bytes → Bytes
decrypt_blocks p key zero s = []
decrypt_blocks p key (suc n) s =
    p.aes_decrypt key (take block_size s) ++ decrypt_blocks p key n (drop block_size s)

-- The errors are a text that is not whole blocks and a key of a size that AES does not have.
unfoldable pub decrypt_aes128_ecb : Platform → Bytes → Bytes → Option Bytes
unfolding decrypt_blocks
decrypt_aes128_ecb p key16 ciphertext =
    if not (length ciphertext % block_size == 0)
    then none
    else if length key16 == 16 || length key16 == 24 || length key16 == 32
    then some (decrypt_blocks p key16 (length ciphertext / block_size) ciphertext)
    else none

-- The text that a key opens, if its hash byte and the MAC fit it and the text is not blank.
text_behind : Option Bytes → Bytes
text_behind none = []
text_behind (some plaintext) =
    if ltb (length plaintext) 5 then [] else decode_null_terminated_utf8 (drop 5 plaintext)

open_with : Platform → ℕ → Bytes → Bytes → Option Bytes → Bytes
unfolding text_behind
open_with p channel_hash cipher_mac ciphertext none = []
open_with p channel_hash cipher_mac ciphertext (some key) =
    if not (length key == 16)
    then []
    else if not (get_or (p.sha256 key) 0 0 == channel_hash)
    then []
    else if not (verify_meshcore_mac p key ciphertext cipher_mac)
    then []
    else text_behind (decrypt_aes128_ecb p key ciphertext)

sender_and_message : Bytes → Bytes × Bytes
sender_and_message text =
    let (sender, message) = parse_sender_and_message text in
    if same message [] then (sender, text) else (sender, message)

-- The loop over the keys; `continue` goes on to the next.
try_keys : Platform → ℕ → Bytes → Bytes → List Bytes → Option (Bytes × Bytes)
unfolding open_with sender_and_message
try_keys p channel_hash cipher_mac ciphertext [] = none
try_keys p channel_hash cipher_mac ciphertext (key_hex ∷ keys) =
    let text =
      open_with p channel_hash cipher_mac ciphertext (decode_string (trim_space key_hex)) in
    let rest = try_keys p channel_hash cipher_mac ciphertext keys in
    if same text [] then rest else some (sender_and_message text)

decrypt_bytes : Platform → Option Bytes → List Bytes → Option (Bytes × Bytes)
unfolding try_keys
decrypt_bytes p none channel_keys = none
decrypt_bytes p (some payload) channel_keys =
    let ciphertext = drop 3 payload in
    if ltb (length payload) 3
    then none
    else if length ciphertext == 0 || not (length ciphertext % block_size == 0)
    then none
    else try_keys p (get_or payload 0 0) (take 2 (drop 1 payload)) ciphertext channel_keys

-- The sender and the message.
unfoldable pub decrypt_group_text_payload : Platform → Bytes → List Bytes → Option (Bytes × Bytes)
unfolding decrypt_bytes
decrypt_group_text_payload p payload_hex channel_keys =
    decrypt_bytes p (decode_string (trim_space payload_hex)) channel_keys

-- The attempt to read the payload as a JSON object.
from_json : Platform → Bytes → Option Candidate
from_json p raw = elim (p.json_object raw) [
  | none ↦ none
  | some body ↦
      let name = string_value body (codes "username" ∷ codes "sender" ∷ codes "name" ∷ []) in
      let message = string_value body (codes "message" ∷ codes "text" ∷ codes "body" ∷ []) in
      if not (same name []) && not (same message []) && has_mesh_monday_tag p message
      then some (record {
        username = normalize_username p name;
        display_name = trim_space name;
        message = trim_space message;
      })
      else none
]

from_text : Platform → Bytes → Option Candidate
from_text p text = if same text [] then none else parse_candidate_from_text p text

unfoldable pub extract_from_payload : Platform → Bytes → Option Candidate
unfolding from_json from_text
extract_from_payload p payload_hex = elim (decode_string (trim_space payload_hex)) [
  | none ↦ none
  | some raw ↦ elim (from_json p raw) [
    | some candidate ↦ some candidate
    | none ↦ from_text p (sanitize_text raw)
  ]
]

-- What a decrypted group text gives; the outer option is `none` where the code falls through.
from_group_text : Platform → Bytes × Bytes → Option (Option Candidate)
from_group_text p (sender, raw_message) =
    let message = trim_space raw_message in
    if not (same sender [])
    then if not (has_mesh_monday_tag p message)
      then some none
      else some (
          some (record {
            username = normalize_username p sender;
            display_name = trim_space sender;
            message = message;
          }))
    else let full = trim_space message in
      if same full [] then none else some (parse_candidate_from_text p full)

from_decrypted : Platform → Option (Bytes × Bytes) → Option (Option Candidate)
unfolding from_group_text
from_decrypted p none = none
from_decrypted p (some found) = from_group_text p found

unfoldable pub extract_from_packet : Platform → ℕ → Bytes → List Bytes → Option Candidate
unfolding from_decrypted
extract_from_packet p payload_type payload_hex channel_keys =
    let decided =
      if payload_type == payload_type_group_text
      then from_decrypted p (decrypt_group_text_payload p payload_hex channel_keys)
      else none in
    elim decided [ some answer ↦ answer | none ↦ extract_from_payload p payload_hex ]
