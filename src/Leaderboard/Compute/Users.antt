-- ===== src/Leaderboard/Compute/Users.antt =====
-- Who is on the board: the users that have a check-in, all of them and nobody else.
use mathlib.Core.List.{Permᴰ}
use mesh_monday.Base.{
  ℕ, ◌≡◌, refl, sym, ◌∙◌, Bool, ◌||◌, List, [], ◌∷◌, map, arith, Bytes, same, same_iff, any_of,
}
use mesh_monday.Platform.{Platform}
use mesh_monday.Go.Time.{Time}
use mesh_monday.Go.Sort.Order.{any_of-perm, sort_slice_rearranges}
use mesh_monday.Leaderboard.Compute.{
  RatedCheckin, UserState, LeaderboardEntry, ranks_before, entry_of, by_user, add_to_state,
  add_checkin, season_weeks_of, compute,
}

module _ (k : Bytes) where
  abbrev pub checked_in : List RatedCheckin → Bool
  checked_in = any_of (λ (c : RatedCheckin). same c.username k)

  abbrev in_map : List UserState → Bool
  in_map = any_of (λ (s : UserState). same s.user k)

  abbrev pub on_board : List LeaderboardEntry → Bool
  on_board = any_of (λ (e : LeaderboardEntry). same e.username k)

  in_map-add_checkin :
      (c : RatedCheckin) (states : List UserState)
      → in_map (add_checkin c states) ≡ (in_map states || same c.username k)
  unfolding any_of add_checkin add_to_state
  in_map-add_checkin c [] = ground arith
  in_map-add_checkin c (s ∷ states) = ground (
    arith,
    in_map-add_checkin c states,
    same_iff s.user c.username,
    same_iff s.user k,
    same_iff c.username k,
  )

  in_map-by_user :
      (rows : List RatedCheckin) (states : List UserState)
      → in_map (by_user rows states) ≡ (in_map states || checked_in rows)
  unfolding any_of by_user
  in_map-by_user [] states = ground arith
  in_map-by_user (c ∷ rows) states =
      ground (arith, in_map-by_user rows (add_checkin c states), in_map-add_checkin c states)

  on_board-map :
      (season : ℕ) (from : Time) (states : List UserState)
      → on_board (map (entry_of season from) states) ≡ in_map states
  unfolding any_of entry_of
  on_board-map season from [] = refl
  on_board-map season from (s ∷ states) = ground (arith, on_board-map season from states)

-- If the map of users is visited in any order, each user once, a name is on the board exactly if
-- one of the check-ins has it.
pub compute-on_board :
    (k : Bytes) (visit : List UserState → List UserState)
    → ((states : List UserState) → Permᴰ states (visit states))
    → (p : Platform) (rows : List RatedCheckin) (tracked_from now : Time) (tz : Bytes)
    → on_board k (compute visit p rows tracked_from now tz) ≡ checked_in k rows
unfolding compute any_of
compute-on_board k visit every p rows tracked_from now tz =
    sym (any_of-perm _ (sort_slice_rearranges ranks_before _))
    ∙ on_board-map k (season_weeks_of p tracked_from now tz) tracked_from (visit (by_user rows []))
    ∙ sym (any_of-perm _ (every (by_user rows [])))
    ∙ in_map-by_user k rows []
