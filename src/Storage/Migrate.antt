-- ===== src/Storage/Migrate.antt =====
-- The statements of `Migrate` in internal/storage/sqlite.go that change rows. The tables are there
-- already in the model, and an index that does not constrain rows is none of its business.
pub mod Canonical
pub mod Backfill
pub mod Upgrade
pub mod Opened
mod Tests
use mesh_monday.Base.{
  ℕ, Bool, true, false, not, ◌&&◌, ◌||◌, List, [], ◌∷◌, ltb, if◌then◌else◌, keep, any_of, has_key,
  Result, ok, err,
}
use mesh_monday.Storage.Schema.{
  Checkin, CheckinPacket, Db, week_user, same_week_user, same_week_user_iff,
}
use mesh_monday.Storage.Exec.{SqlError, unique_failed, Exec, ◌>>=◌, ◌>>◌, exec}
use mesh_monday.Storage.Statements.{Outcome, insert_link_row}

-- SELECT MIN(id) … GROUP BY week_start, username: no row of the same user and week has a smaller id.
-- An id is a primary key, so no two rows share one.
unfoldable pub is_canonical : List Checkin → Checkin → Bool
is_canonical rows c =
    not (any_of (λ d. same_week_user (week_user d) (week_user c) && ltb d.id c.id) rows)

-- DELETE FROM checkins WHERE id NOT IN (…)
unfoldable pub delete_repeated_checkins : Db → Outcome (Unit {0})
delete_repeated_checkins db =
    (ok tt, record db { checkins = keep (is_canonical db.checkins) db.checkins })

-- Whether two rows share a week and a user.
pub has_repeat : List Checkin → Bool
has_repeat [] = false
has_repeat (c ∷ rows) =
    let rest = has_repeat rows in
    has_key week_user same_week_user same_week_user_iff (week_user c) rows || rest

-- CREATE UNIQUE INDEX … ON checkins (week_start, username), which fails on rows that repeat.
unfoldable pub create_week_user_index : Db → Outcome (Unit {0})
create_week_user_index db = if has_repeat db.checkins then (err unique_failed, db) else (ok tt, db)

abbrev pub link_of : Checkin → CheckinPacket
link_of c = record {
  id = 0;
  week_start = c.week_start;
  username = c.username;
  packet_hash = c.packet_hash;
  created_at = c.created_at;
}

-- INSERT OR IGNORE for one row after the other. A row that is there is passed over; a foreign key that
-- fails is not ignored.
after_link : (Db → Outcome (Unit {0})) → Outcome ℕ → Outcome (Unit {0})
after_link next (ok n, db) = next db
after_link next (err e, db) = (err e, db)

link_checkins : List Checkin → Db → Outcome (Unit {0})
unfolding after_link
link_checkins [] db = (ok tt, db)
link_checkins (c ∷ rows) db = after_link (link_checkins rows) (insert_link_row (link_of c) db)

-- A statement that fails changes nothing.
undo : Db → Outcome (Unit {0}) → Outcome (Unit {0})
undo before (ok u, db) = (ok tt, db)
undo before (err e, db) = (err e, before)

-- INSERT OR IGNORE INTO checkin_packets … SELECT … FROM checkins
unfoldable pub backfill_links : Db → Outcome (Unit {0})
unfolding undo link_checkins
backfill_links db = undo db (link_checkins db.checkins db)

-- `Migrate`, where each statement is its own transaction.
unfoldable pub migrate : Exec (Unit {0})
migrate = exec delete_repeated_checkins >> (exec create_week_user_index >> exec backfill_links)
