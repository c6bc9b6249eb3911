-- ===== src/Storage/Statements.antt =====
-- The SQL statements of internal/storage, as what SQLite does with them on the tables: an INSERT
-- checks the UNIQUE constraints, then the foreign key, and appends; a DELETE cascades.
use mesh_monday.Base.{
  ℕ, ◌+◌, Bool, not, ◌||◌, List, [], ◌∷◌, ◌++◌, Bytes, if◌then◌else◌, keep, any_of, length, ◌==◌,
  same, same_iff, has_key, Result, ok, err,
}
use mesh_monday.Storage.Schema.{
  RawPacket, Checkin, Observation, CheckinPacket, Db, raw_hash, checkin_hash, week_user,
  observation_key, link_key, same_week_user, same_week_user_iff, same_observation,
  same_observation_iff, same_link, same_link_iff, has_raw,
}
use mesh_monday.Storage.Exec.{SqlError, unique_failed, foreign_key_failed}

abbrev pub Outcome : Type 0 → Type 0
Outcome A = Result SqlError A × Db

-- INSERT INTO raw_packets; the number is the rows affected.
unfoldable pub insert_raw : RawPacket → Db → Outcome ℕ
insert_raw r db = if has_raw r.packet_hash db then (err unique_failed, db) else (
  ok 1,
  record db {
    raw_packets = db.raw_packets ++ record r { id = db.next_raw } ∷ [];
    next_raw = db.next_raw + 1;
  },
)

-- INSERT INTO checkins … ON CONFLICT DO NOTHING, with UNIQUE(packet_hash) and
-- UNIQUE(week_start, username).
unfoldable pub insert_checkin_row : Checkin → Db → Outcome ℕ
insert_checkin_row c db =
    if has_key checkin_hash same same_iff (checkin_hash c) db.checkins
      || has_key week_user same_week_user same_week_user_iff (week_user c) db.checkins
    then (ok 0, db)
    else if not (has_raw c.packet_hash db)
    then (err foreign_key_failed, db)
    else (
      ok 1,
      record db {
        checkins = db.checkins ++ record c { id = db.next_checkin } ∷ [];
        next_checkin = db.next_checkin + 1;
      },
    )

-- INSERT INTO packet_observations, with UNIQUE(packet_hash, observer_key).
unfoldable pub insert_observation_row : Observation → Db → Outcome ℕ
insert_observation_row o db =
    if has_key observation_key same_observation same_observation_iff (observation_key o)
      db.observations
    then (err unique_failed, db)
    else if not (has_raw o.packet_hash db)
    then (err foreign_key_failed, db)
    else (
      ok 1,
      record db {
        observations = db.observations ++ record o { id = db.next_observation } ∷ [];
        next_observation = db.next_observation + 1;
      },
    )

-- INSERT INTO checkin_packets … ON CONFLICT DO NOTHING, with UNIQUE(week_start, username,
-- packet_hash).
unfoldable pub insert_link_row : CheckinPacket → Db → Outcome ℕ
insert_link_row l db =
    if has_key link_key same_link same_link_iff (link_key l) db.checkin_packets
    then (ok 0, db)
    else if not (has_raw l.packet_hash db)
    then (err foreign_key_failed, db)
    else (
      ok 1,
      record db {
        checkin_packets = db.checkin_packets ++ record l { id = db.next_link } ∷ [];
        next_link = db.next_link + 1;
      },
    )

abbrev pub id_in : List ℕ → ℕ → Bool
id_in ids i = any_of (λ j. j == i) ids

-- DELETE FROM raw_packets WHERE id IN (…), with ON DELETE CASCADE in the three other tables: a row
-- stays if its packet stays.
unfoldable pub delete_raw : List ℕ → Db → Outcome ℕ
delete_raw ids db =
    let stays : RawPacket → Bool = λ r. not (id_in ids r.id) in
    let kept = keep stays db.raw_packets in
    let gone = keep (λ (r : RawPacket). id_in ids r.id) db.raw_packets in
    let spared : Bytes → Bool = λ h. not (has_key raw_hash same same_iff h gone) in
    (
      ok (length gone),
      record db {
        raw_packets = kept;
        checkins = keep (λ (c : Checkin). spared c.packet_hash) db.checkins;
        observations = keep (λ (o : Observation). spared o.packet_hash) db.observations;
        checkin_packets = keep (λ (l : CheckinPacket). spared l.packet_hash) db.checkin_packets;
      },
    )
