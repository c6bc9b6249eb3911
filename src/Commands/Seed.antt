-- ===== src/Commands/Seed.antt =====
-- cmd/devseed/main.go: a dozen users with a check-in each, for a store to try the pages on. Errors are
-- dropped.
pub mod Kept
use mesh_monday.Base.{
  ℕ, zero, suc, ◌+◌, ◌*◌, ◌%◌, List, [], ◌∷◌, ◌++◌, ◌&&◌, ◌||◌, Bool, Bytes, codes, leb,
  if◌then◌else◌,
}
use mesh_monday.Platform.{Platform}
use mesh_monday.Config.{Config}
use mesh_monday.Go.Time.{Time, sub_days, day_of}
use mesh_monday.Go.Date.Format.{format_rfc3339}
use mesh_monday.Meshcore.{hash_packet}
use mesh_monday.Checkins.Weeks.{week_start_monday}
use mesh_monday.Storage.Schema.{RawPacket, Checkin}
use mesh_monday.Storage.Exec.{World}
use mesh_monday.Storage.Inserts.{insert_raw_packet, insert_checkin}

abbrev pub users : List Bytes
users =
    codes "Avery"
    ∷ codes "Blake"
    ∷ codes "Casey"
    ∷ codes "Drew"
    ∷ codes "Emerson"
    ∷ codes "Finley"
    ∷ codes "Gray"
    ∷ codes "Harper"
    ∷ codes "Indigo"
    ∷ codes "Jordan"
    ∷ codes "Kai"
    ∷ codes "Logan"
    ∷ []

-- `normalize`; a byte of a rune that is not ASCII is none of these.
unfoldable pub normalize : Bytes → Bytes
normalize [] = []
normalize (c ∷ name) =
    let rest = normalize name in
    if leb b'A' c && leb c b'Z'
    then (c + 32) ∷ rest
    else if (leb b'a' c && leb c b'z') || (leb b'0' c && leb c b'9')
    then c ∷ rest
    else rest

-- Nine hours into the Monday of the week so many weeks ago.
pub seed_time : Platform → Config → Time → ℕ → Time
seed_time p c now weeks_ago =
    let start = week_start_monday p (sub_days now (weeks_ago * 7)) c.tz in
    record start { unix = start.unix + 9 * 3600 }

pub seed_hash : Platform → Bytes → Time → Bytes
seed_hash p name observed = hash_packet p (name ++ b'-' ∷ format_rfc3339 observed)

pub seed_packet : Platform → Config → Bytes → Time → RawPacket
unfolding seed_hash
seed_packet p c name observed = record {
  id = 0;
  packet_hash = seed_hash p name observed;
  topic = codes "meshcore/" ++ c.iata_default ++ codes "/seed-device/packets";
  iata = c.iata_default;
  device_public_key = codes "seed-device";
  payload_hex = codes "040041766572793a20436865636b696e21";
  payload_type = 4;
  payload_type_name = codes "TXT_MSG";
  route_type = 0;
  route_type_name = codes "TRANSPORT_FLOOD";
  path_len = 0;
  observed_at = observed.unix;
  received_at = observed.unix;
}

pub seed_checkin : Platform → Config → Bytes → Time → ℕ → Checkin
unfolding seed_hash
seed_checkin p c name observed created_at = record {
  id = 0;
  packet_hash = seed_hash p name observed;
  username = normalize name;
  display_name = name;
  message = codes "Checking in from seed data";
  iata = c.iata_default;
  checkin_date = day_of observed;
  week_start = day_of (week_start_monday p observed c.tz);
  created_at = created_at;
}

-- One round of the loop.
seed_user : Platform → Config → Bytes → Time → ℕ → World → World
seed_user p c name observed created_at w =
    let w' = (insert_raw_packet (seed_packet p c name observed) w).1 in
    (insert_checkin (seed_checkin p c name observed created_at) w').1

-- The loop, with the clock as it is read in each round.
seed_from : Platform → Config → Time → (ℕ → ℕ) → ℕ → List Bytes → World → World
unfolding seed_user
seed_from p c now created_at i [] w = w
seed_from p c now created_at i (name ∷ names) w =
    seed_from p c now created_at (i + 1) names
      (seed_user p c name (seed_time p c now (i % 6)) (created_at i) w)

-- `main`, on the store that it opened.
pub seed : Platform → Config → Time → (ℕ → ℕ) → World → World
unfolding seed_from
seed p c now created_at = seed_from p c now created_at 0 users
