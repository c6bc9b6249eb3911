-- ===== src/Ingest/Service.antt =====
-- `Service`: one message, from the topic to the check-in. Every error is logged and dropped, so a
-- message that fails has the effect that it had so far.
mod Tests
pub mod Consistency
pub mod Effects
pub mod Limits
pub mod Overlap
use mesh_monday.Base.{
  ℕ, zero, suc, Bool, true, false, not, List, [], ◌∷◌, Option, none, some, Bytes, if◌then◌else◌,
  Result, ok, err,
}
use mesh_monday.Base.Int.{ℤ, pos, negsuc}
use mesh_monday.Platform.{Platform}
use mesh_monday.Config.{Config, channel_secret_keys}
use mesh_monday.Go.Time.{Time, in_zone, day_of}
use mesh_monday.Meshcore.{Packet, DecodeError, decode_packet, hash_packet}
use mesh_monday.Checkins.Text.{Candidate}
use mesh_monday.Checkins.Extract.{extract_from_packet}
use mesh_monday.Checkins.Weeks.{is_monday_in_tz, week_start_monday}
use mesh_monday.Storage.Schema.{RawPacket, Checkin}
use mesh_monday.Storage.Exec.{SqlError, World}
use mesh_monday.Storage.Inserts.{
  insert_raw_packet, insert_packet_observation, insert_checkin_packet, insert_checkin,
}
use mesh_monday.Ingest.Message.{parse_topic, decode_incoming_envelope}
use mesh_monday.Ingest.Retry.{with_busy_retry}

pub record Service : Type 0 where
  pub cfg : Config
  pub channel_keys : List Bytes

unfoldable pub new_service : Platform → Config → Service
new_service p cfg = record { cfg = cfg; channel_keys = channel_secret_keys p cfg }

abbrev positive_or : ℤ → ℕ → ℕ
positive_or (pos zero) default = default
positive_or (pos (suc n)) default = suc n
positive_or (negsuc n) default = default

unfoldable pub max_packet_hex_chars : Service → ℕ
max_packet_hex_chars s = positive_or s.cfg.ingest_max_packet_hex 8192

unfoldable pub max_observer_chars : Service → ℕ
max_observer_chars s = positive_or s.cfg.ingest_max_observer 64

-- Why a message is dropped before anything is written.
pub data Rejection : Type 0 where
  invalid_topic empty_body : Rejection
  decode_failed : DecodeError → Rejection

-- A message whose packet was decoded.
pub record Accepted : Type 0 where
  pub topic : Bytes
  pub iata : Bytes
  pub device_key : Bytes
  pub packet_hex : Bytes
  pub observer_key : Bytes
  pub packet : Packet

-- The three times at which the handler reads the clock, in UTC.
pub record Clock : Type 0 where
  pub received_at : ℕ
  pub linked_at : ℕ
  pub created_at : ℕ

decode_body : Bytes → Bytes × Bytes → Bytes × Bytes → Result Rejection Accepted
decode_body topic (iata, device_key) (packet_hex, observer_key) = elim (decode_packet packet_hex) [
  | err e ↦ err (decode_failed e)
  | ok packet ↦ ok (record {
    topic = topic;
    iata = iata;
    device_key = device_key;
    packet_hex = packet_hex;
    observer_key = observer_key;
    packet = packet;
  })
]

unwrap : Platform → Service → Bytes → Bytes → Bytes × Bytes → Result Rejection Accepted
unwrap p s topic payload_hex (iata, device_key) =
    elim (decode_incoming_envelope p payload_hex device_key (max_packet_hex_chars s)
      (max_observer_chars s)) [
        | none ↦ err empty_body
        | some body ↦ decode_body topic (iata, device_key) body
      ]

-- `HandleMessage` up to the decoded packet.
pub accept : Platform → Service → Bytes → Bytes → Result Rejection Accepted
accept p s topic payload_hex = elim (parse_topic p topic) [
  | none ↦ err invalid_topic
  | some parts ↦ unwrap p s topic payload_hex parts
]

abbrev pub raw_of : Platform → Accepted → Time → Clock → RawPacket
raw_of p a observed_at clock = record {
  id = 0;
  packet_hash = hash_packet p a.packet_hex;
  topic = a.topic;
  iata = a.iata;
  device_public_key = a.device_key;
  payload_hex = a.packet_hex;
  payload_type = a.packet.payload_type;
  payload_type_name = a.packet.payload_type_name;
  route_type = a.packet.route_type;
  route_type_name = a.packet.route_type_name;
  path_len = a.packet.path_len;
  observed_at = observed_at.unix;
  received_at = clock.received_at;
}

-- The check-in of a candidate, filed under the week of the day on which it was observed.
abbrev pub checkin_of : Platform → Service → Accepted → Candidate → Time → Clock → Checkin
checkin_of p s a candidate observed_at clock =
    let week_start = week_start_monday p observed_at s.cfg.tz in
    record {
      id = 0;
      packet_hash = hash_packet p a.packet_hex;
      username = candidate.username;
      display_name = candidate.display_name;
      message = candidate.message;
      iata = a.iata;
      checkin_date = day_of (in_zone observed_at week_start.zone);
      week_start = day_of week_start;
      created_at = clock.created_at;
    }

-- The link and the check-in; a link that fails does not hold the check-in back.
file_checkin : Platform → Service → Accepted → Candidate → Time → Clock → World → World
file_checkin p s a candidate observed_at clock w =
    let week_start = day_of (week_start_monday p observed_at s.cfg.tz) in
    let packet_hash = hash_packet p a.packet_hex in
    let link = insert_checkin_packet week_start candidate.username packet_hash clock.linked_at in
    let checkin = insert_checkin (checkin_of p s a candidate observed_at clock) in
    (with_busy_retry p checkin (with_busy_retry p link w).1).1

-- A packet that was not stored before: is it a check-in, and was it seen on a Monday?
handle_new : Platform → Service → Accepted → Time → Clock → World → World
handle_new p s a observed_at clock w =
    elim (extract_from_packet p a.packet.payload_type a.packet.payload_hex s.channel_keys) [
      | none ↦ w
      | some candidate ↦
          if not (is_monday_in_tz p observed_at s.cfg.tz)
          then w
          else file_checkin p s a candidate observed_at clock w
    ]

after_insert : Platform → Service → Accepted → Time → Clock → Result SqlError Bool × World → World
after_insert p s a observed_at clock (err e, w) = w
after_insert p s a observed_at clock (ok inserted, w) =
    let packet_hash = hash_packet p a.packet_hex in
    let observation = insert_packet_observation packet_hash a.observer_key observed_at.unix in
    let w' = (with_busy_retry p observation w).1 in
    if not inserted then w' else handle_new p s a observed_at clock w'

store_accepted : Platform → Service → Accepted → Time → Clock → World → World
store_accepted p s a observed_at clock w =
    after_insert p s a observed_at clock
      (with_busy_retry p (insert_raw_packet (raw_of p a observed_at clock)) w)

-- `HandleMessage`
pub handle_message : Platform → Service → Bytes → Bytes → Time → Clock → World → World
handle_message p s topic payload_hex observed_at clock w = elim (accept p s topic payload_hex) [
  | err _ ↦ w
  | ok a ↦ store_accepted p s a observed_at clock w
]
