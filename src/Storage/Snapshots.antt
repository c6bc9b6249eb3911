-- ===== src/Storage/Snapshots.antt =====
-- `ReplaceLeaderboardSnapshots`: the board is stored in one transaction.
pub mod Atomic
mod Tests
use mesh_monday.Base.{ℕ, List, [], ◌∷◌, ◌++◌, Option, none, some, Bytes, codes, Result, ok, err}
use mesh_monday.Leaderboard.Compute.{LeaderboardEntry}
use mesh_monday.Storage.Schema.{Db, Snapshot}
use mesh_monday.Storage.Exec.{SqlError, World, Exec, ◌>>=◌, ◌>>◌, pure, exec}
use mesh_monday.Storage.Statements.{Outcome}

-- BEGIN and COMMIT, which may fail as any statement may.
pub no_change : Db → Outcome (Unit {0})
no_change db = (ok tt, db)

-- DELETE FROM leaderboard_snapshots
pub delete_snapshots : Db → Outcome (Unit {0})
delete_snapshots db = (ok tt, record db { snapshots = [] })

-- INSERT INTO leaderboard_snapshots
pub insert_snapshot : Snapshot → Db → Outcome (Unit {0})
insert_snapshot s db = (ok tt, record db { snapshots = db.snapshots ++ s ∷ [] })

pub most_checkins_row : ℕ → LeaderboardEntry → Snapshot
most_checkins_row computed_at e = record {
  metric_type = codes "most_checkins";
  username = e.username;
  display_name = e.display_name;
  metric_value = e.most_checkins;
  streak_start = none;
  tracked_from = e.tracked_from;
  computed_at = computed_at;
}

-- A start date is a day, so its text is not empty.
pub longest_streak_row : ℕ → LeaderboardEntry → Snapshot
longest_streak_row computed_at e = record {
  metric_type = codes "longest_streak";
  username = e.username;
  display_name = e.display_name;
  metric_value = e.longest_streak;
  streak_start = some e.streak_start_date;
  tracked_from = e.tracked_from;
  computed_at = computed_at;
}

-- The loop over the entries.
pub insert_snapshots : ℕ → List LeaderboardEntry → Exec (Unit {0})
insert_snapshots computed_at [] = pure tt
insert_snapshots computed_at (e ∷ entries) = do
  exec (insert_snapshot (most_checkins_row computed_at e))
  exec (insert_snapshot (longest_streak_row computed_at e))
  insert_snapshots computed_at entries

-- `defer tx.Rollback()`: what an error ends leaves the store as it was.
pub or_rollback : Db → Result SqlError (Unit {0}) × World → Result SqlError (Unit {0}) × World
or_rollback before (ok u, w) = (ok u, w)
or_rollback before (err e, w) = (err e, record w { db = before })

abbrev pub in_transaction : Exec (Unit {0}) → Exec (Unit {0})
in_transaction body w = or_rollback w.db ((exec no_change >> (body >> exec no_change)) w)

unfoldable pub replace_leaderboard_snapshots : List LeaderboardEntry → ℕ → Exec (Unit {0})
replace_leaderboard_snapshots entries computed_at =
    in_transaction (exec delete_snapshots >> insert_snapshots computed_at entries)
