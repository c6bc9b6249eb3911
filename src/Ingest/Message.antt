-- ===== src/Ingest/Message.antt =====
-- The topic and the envelope of a message: `parseTopic` and `decodeIncomingEnvelope`.
use mesh_monday.Base.{
  ℕ, not, ◌||◌, List, [], ◌∷◌, Option, none, some, Bytes, codes, ltb, if◌then◌else◌, same, length,
  take,
}
use mesh_monday.Platform.{Platform, Envelope}
use mesh_monday.Go.Text.{to_upper, split, has_prefix}
use mesh_monday.Go.Trim.{trim_space}

-- The four parts of a topic.
topic_parts : Platform → List Bytes → Option (Bytes × Bytes)
topic_parts p (a ∷ b ∷ c ∷ d ∷ []) =
    if not (same a (codes "meshcore")) || not (same d (codes "packets"))
    then none
    else some (to_upper p b, c)
topic_parts p _ = none

-- `parseTopic`: the IATA code and the device key.
unfoldable pub parse_topic : Platform → Bytes → Option (Bytes × Bytes)
unfolding topic_parts
parse_topic p topic = topic_parts p (split (trim_space topic) b'/')

-- The JSON branch, once the envelope is read.
unwrap_envelope : Envelope → Bytes → ℕ → ℕ → Option (Bytes × Bytes)
unwrap_envelope env fallback_observer max_packet_hex_chars max_observer_chars =
    let raw = trim_space env.raw in
    let name = trim_space env.origin in
    if same raw [] || ltb max_packet_hex_chars (length raw)
    then none
    else if same name []
    then some (raw, fallback_observer)
    else if ltb max_observer_chars (length name)
    then none
    else some (raw, name)

-- `decodeIncomingEnvelope`: the packet's text and the observer.
unfoldable pub decode_incoming_envelope : Platform → Bytes → Bytes → ℕ → ℕ → Option (Bytes × Bytes)
unfolding unwrap_envelope
decode_incoming_envelope p payload fallback_observer max_packet_hex_chars max_observer_chars =
    let trimmed = trim_space payload in
    if same trimmed []
    then none
    else if ltb max_packet_hex_chars (length trimmed)
    then none
    else if has_prefix trimmed (codes "{")
    then elim (p.json_envelope trimmed) [
      | none ↦ none
      | some env ↦ unwrap_envelope env fallback_observer max_packet_hex_chars max_observer_chars
    ]
    else if ltb max_observer_chars (length fallback_observer)
    then some (trimmed, take max_observer_chars fallback_observer)
    else some (trimmed, fallback_observer)
