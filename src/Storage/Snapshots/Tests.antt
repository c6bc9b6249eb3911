-- ===== src/Storage/Snapshots/Tests.antt =====
-- A board of one entry, stored while the insert of its second row fails.
use mesh_monday.Base.{[], ◌∷◌, none, some, codes}
use mesh_monday.Leaderboard.Compute.{LeaderboardEntry}
use mesh_monday.Storage.Schema.{empty_db}
use mesh_monday.Storage.Exec.{World, fault}
use mesh_monday.Storage.Snapshots.{replace_leaderboard_snapshots}
use mesh_monday.Storage.Snapshots.Atomic.{
  Replaces, snapshot_rows, replace_leaderboard_snapshots-Replaces,
}

abbrev entry : LeaderboardEntry
entry = record {
  username = codes "avery";
  display_name = codes "Avery";
  most_checkins = 3;
  season_weeks = 4;
  tracked_from = 739739;
  longest_streak = 2;
  streak_start_date = 739746;
}

-- The insert of the second row finds a full disk.
abbrev full_disk : World
full_disk = record {
  db = empty_db;
  faults = none ∷ none ∷ none ∷ some (fault (codes "database or disk is full")) ∷ [];
  waits = [];
}

replace_leaderboard_snapshots-Replaces_example :
    Replaces
      (snapshot_rows 1 (entry ∷ []))
      empty_db
      (replace_leaderboard_snapshots (entry ∷ []) 1 full_disk)
replace_leaderboard_snapshots-Replaces_example =
    replace_leaderboard_snapshots-Replaces (entry ∷ []) 1 full_disk
