-- ===== src/Storage/Schema.antt =====
-- The tables of internal/storage/sqlite.go and the records of internal/models/models.go. A date
-- column holds a day and a time column an instant, as Go.Time counts them.
use mesh_monday.Base.{
  ℕ, ◌≡◌, ◌↔◌, Bool, true, ◌&&◌, List, [], Option, arith, Bytes, ◌==◌, same, same_iff, Distinct,
  has_key, All,
}

pub record RawPacket : Type 0 where
  pub id : ℕ
  pub packet_hash : Bytes
  pub topic : Bytes
  pub iata : Bytes
  pub device_public_key : Bytes
  pub payload_hex : Bytes
  pub payload_type : ℕ
  pub payload_type_name : Bytes
  pub route_type : ℕ
  pub route_type_name : Bytes
  pub path_len : ℕ
  pub observed_at : ℕ
  pub received_at : ℕ

pub record Checkin : Type 0 where
  pub id : ℕ
  pub packet_hash : Bytes
  pub username : Bytes
  pub display_name : Bytes
  pub message : Bytes
  pub iata : Bytes
  pub checkin_date : ℕ
  pub week_start : ℕ
  pub created_at : ℕ

pub record Observation : Type 0 where
  pub id : ℕ
  pub packet_hash : Bytes
  pub observer_key : Bytes
  pub observed_at : ℕ

pub record CheckinPacket : Type 0 where
  pub id : ℕ
  pub week_start : ℕ
  pub username : Bytes
  pub packet_hash : Bytes
  pub created_at : ℕ

-- A row of leaderboard_snapshots; nothing reads its id.
pub record Snapshot : Type 0 where
  pub metric_type : Bytes
  pub username : Bytes
  pub display_name : Bytes
  pub metric_value : ℕ
  pub streak_start : Option ℕ
  pub tracked_from : ℕ
  pub computed_at : ℕ

-- The tables, and for each the id that AUTOINCREMENT gives next.
pub record Db : Type 0 where
  pub raw_packets : List RawPacket
  pub checkins : List Checkin
  pub observations : List Observation
  pub checkin_packets : List CheckinPacket
  pub snapshots : List Snapshot
  pub next_raw : ℕ
  pub next_checkin : ℕ
  pub next_observation : ℕ
  pub next_link : ℕ

abbrev pub empty_db : Db
empty_db = record {
  raw_packets = [];
  checkins = [];
  observations = [];
  checkin_packets = [];
  snapshots = [];
  next_raw = 1;
  next_checkin = 1;
  next_observation = 1;
  next_link = 1;
}

-- The keys of the UNIQUE constraints, and when two are equal.
abbrev pub raw_hash : RawPacket → Bytes
raw_hash r = r.packet_hash

abbrev pub raw_id : RawPacket → ℕ
raw_id r = r.id

abbrev pub checkin_hash : Checkin → Bytes
checkin_hash c = c.packet_hash

abbrev pub week_user : Checkin → ℕ × Bytes
week_user c = (c.week_start, c.username)

abbrev pub observation_key : Observation → Bytes × Bytes
observation_key o = (o.packet_hash, o.observer_key)

abbrev pub link_hash : CheckinPacket → Bytes
link_hash l = l.packet_hash

abbrev pub link_key : CheckinPacket → ℕ × Bytes × Bytes
link_key l = (l.week_start, l.username, l.packet_hash)

abbrev pub same_week_user : ℕ × Bytes → ℕ × Bytes → Bool
same_week_user (a, u) (b, v) = a == b && same u v

abbrev pub same_observation : Bytes × Bytes → Bytes × Bytes → Bool
same_observation (h, o) (k, q) = same h k && same o q

abbrev pub same_link : ℕ × Bytes × Bytes → ℕ × Bytes × Bytes → Bool
same_link (a, u, h) (b, v, k) = a == b && (same u v && same h k)

pub same_week_user_iff : (x y : ℕ × Bytes) → (same_week_user x y ≡ true) ↔ (x ≡ y)
same_week_user_iff (a, u) (b, v) =
    (λ h. ground (arith, (same_iff u v).0), λ h. ground (arith, (same_iff u v).1))

pub same_observation_iff : (x y : Bytes × Bytes) → (same_observation x y ≡ true) ↔ (x ≡ y)
same_observation_iff (h, o) (k, q) = (
  λ e. ground (arith, (same_iff h k).0, (same_iff o q).0),
  λ e. ground (arith, (same_iff h k).1, (same_iff o q).1),
)

pub same_link_iff : (x y : ℕ × Bytes × Bytes) → (same_link x y ≡ true) ↔ (x ≡ y)
same_link_iff (a, u, h) (b, v, k) = (
  λ e. ground (arith, (same_iff h k).0, (same_iff u v).0),
  λ e. ground (arith, (same_iff h k).1, (same_iff u v).1),
)

-- Whether a packet of this hash is stored.
abbrev pub has_raw : Bytes → Db → Bool
has_raw h db = has_key raw_hash same same_iff h db.raw_packets

-- Every UNIQUE and FOREIGN KEY constraint of the schema holds.
pub record IsConsistent (db : Db) : Type 0 where
  pub raw_unique : Distinct raw_hash db.raw_packets
  pub checkin_unique : Distinct checkin_hash db.checkins
  pub week_user_unique : Distinct week_user db.checkins
  pub observation_unique : Distinct observation_key db.observations
  pub link_unique : Distinct link_key db.checkin_packets
  pub checkin_parent : All (λ c. has_raw (checkin_hash c) db ≡ true) db.checkins
  pub observation_parent :
      All (λ (o : Observation). has_raw o.packet_hash db ≡ true) db.observations
  pub link_parent : All (λ (l : CheckinPacket). has_raw l.packet_hash db ≡ true) db.checkin_packets

pub IsConsistent-empty : IsConsistent empty_db
IsConsistent-empty = omega arith
