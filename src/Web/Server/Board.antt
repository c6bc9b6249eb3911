-- ===== src/Web/Server/Board.antt =====
-- The board that is served, against the store.
use mathlib.Core.List.{Permᴰ}
use mesh_monday.Base.{
  ◌≡◌, refl, ◌∙◌, Bool, ◌&&◌, List, [], ◌∷◌, map, Option, none, some, Bytes, same, keep, any_of,
  length, arith, All, Result, ok, err,
}
use mesh_monday.Platform.{Platform}
use mesh_monday.Go.Time.{day_of}
use mesh_monday.Leaderboard.Compute.{UserState, LeaderboardEntry}
use mesh_monday.Leaderboard.Compute.Totals.{count_of, IsCounted, compute-IsCounted}
use mesh_monday.Leaderboard.Compute.Users.{on_board, checked_in, compute-on_board}
use mesh_monday.Storage.Schema.{Db, Checkin}
use mesh_monday.Storage.Exec.{SqlError, World, next_fault, run_as, exec}
use mesh_monday.Go.Sort.{sort_slice}
use mesh_monday.Storage.Queries.{since_less, select_since, list_checkins_since}
use mesh_monday.Storage.Queries.Listed.{on_since, length-keep_since, any_of-since}
use mesh_monday.Web.Server.{Server, rated, rank, store_board, compute_leaderboard}

count_of-rated :
    (k : Bytes) (rows : List Checkin)
    → count_of k (map rated rows) ≡ length (keep (λ (c : Checkin). same c.username k) rows)
unfolding count_of keep
count_of-rated k [] = refl
count_of-rated k (c ∷ rows) = ground (arith, count_of-rated k rows)

checked_in-rated :
    (k : Bytes) (rows : List Checkin)
    → checked_in k (map rated rows) ≡ any_of (λ (c : Checkin). same c.username k) rows
unfolding any_of
checked_in-rated k [] = refl
checked_in-rated k (c ∷ rows) = ground (arith, checked_in-rated k rows)

-- The check-ins that the user has in the store, of those the board is to count.
abbrev pub counts : Server → Db → Bytes → Checkin → Bool
counts s db k c =
    on_since s.cfg.iata_filters (day_of s.cfg.track_from_date) db c && same c.username k

-- Each entry counts its user's rows of the store, and the users are those that have such rows; or the
-- query itself failed.
abbrev pub IsBoard :
    Server → Db → Option SqlError → Result SqlError (List LeaderboardEntry) → Type 0
IsBoard s db fault (err e) = fault ≡ some e
IsBoard s db fault (ok entries) =
    All (λ e. e.most_checkins ≡ length (keep (counts s db e.username) db.checkins)) entries
    × ((k : Bytes) → on_board k entries ≡ any_of (counts s db k) db.checkins)

module _ (p : Platform) (s : Server)
    (every : (states : List UserState) → Permᴰ states (s.visit states)) where
  ranked-IsBoard :
      (fault : Option SqlError) (w : World)
      → IsBoard s w.db fault
          (rank p s
            (run_as fault (select_since s.cfg.iata_filters (day_of s.cfg.track_from_date)) w)).0
  unfolding rank store_board select_since
  ranked-IsBoard (some e) w = refl
  ranked-IsBoard none w =
      let filters = s.cfg.iata_filters in
      let from = s.cfg.track_from_date in
      let rows : List Checkin =
        sort_slice since_less (keep (on_since filters (day_of from) w.db) w.db.checkins) in
      (
        counted rows _ (λ k. length-keep_since filters (day_of from) w.db (λ c. same c.username k))
            (compute-IsCounted (map rated rows) s.visit every p from s.now s.cfg.tz),
        λ k.
            compute-on_board k s.visit every p (map rated rows) from s.now s.cfg.tz
            ∙ checked_in-rated k rows
            ∙ any_of-since filters (day_of from) w.db (λ c. same c.username k),
      )
    where
      counted :
          (rows : List Checkin) (entries : List LeaderboardEntry)
          → ((k : Bytes)
              → length (keep (λ c. same c.username k) rows)
                ≡ length (keep (counts s w.db k) w.db.checkins))
          → All (IsCounted (map rated rows)) entries
          → All
              (λ e. e.most_checkins ≡ length (keep (counts s w.db e.username) w.db.checkins))
              entries
      counted rows [] e h = tt
      counted rows (x ∷ entries) e (hx, h) =
          (hx ∙ count_of-rated x.username rows ∙ e x.username, counted rows entries e h)

  -- If the map of users is visited in any order, each user once, every entry of the board that is
  -- served counts its user's check-ins in the store that are not older than the tracked day and pass
  -- the filters, the users on it are those that have such a check-in, and the board fails only if the
  -- query does.
  pub compute_leaderboard-IsBoard :
      (w : World) → IsBoard s w.db (next_fault w.faults).0 (compute_leaderboard p s w).0
  unfolding compute_leaderboard list_checkins_since exec
  compute_leaderboard-IsBoard w =
      let (fault, faults) = next_fault w.faults in
      ranked-IsBoard fault (record w { faults = faults })
