-- ===== src/Leaderboard/Compute/Totals.antt =====
-- What the board counts: for each user the check-ins, all of them and no others.
use mathlib.Core.List.{Permᴰ}
use mesh_monday.Base.{
  ℕ, ◌+◌, ◌≡◌, ◌≢◌, List, [], ◌∷◌, map, arith, Bytes, same, same_iff, All, Distinct, if◌then◌else◌,
}
use mesh_monday.Platform.{Platform}
use mesh_monday.Go.Time.{Time}
use mesh_monday.Go.Sort.Order.{All-perm, sort_slice_rearranges}
use mesh_monday.Leaderboard.Compute.{
  RatedCheckin, UserState, LeaderboardEntry, ranks_before, entry_of, by_user, add_to_state,
  add_checkin, season_weeks_of, compute,
}
use mesh_monday.Leaderboard.Compute.Order.{user_of, by_user-Distinct}

-- How many check-ins are of the user.
unfoldable pub count_of : Bytes → List RatedCheckin → ℕ
count_of k [] = 0
count_of k (c ∷ rows) = (if same c.username k then 1 else 0) + count_of k rows

-- The total of a user in the map, nought for one that it does not have.
total_of : Bytes → List UserState → ℕ
total_of k [] = 0
total_of k (s ∷ states) = let rest = total_of k states in if same s.user k then s.total else rest

total_of-add_checkin :
    (k : Bytes) (c : RatedCheckin) (states : List UserState)
    → total_of k (add_checkin c states) ≡ total_of k states + (if same c.username k then 1 else 0)
unfolding total_of add_checkin add_to_state
total_of-add_checkin k c [] = ground arith
total_of-add_checkin k c (s ∷ states) = ground (
  arith,
  total_of-add_checkin k c states,
  same_iff s.user c.username,
  same_iff s.user k,
  same_iff c.username k,
)

total_of-by_user :
    (k : Bytes) (rows : List RatedCheckin) (states : List UserState)
    → total_of k (by_user rows states) ≡ total_of k states + count_of k rows
unfolding by_user count_of
total_of-by_user k [] states = omega arith
total_of-by_user k (c ∷ rows) states =
    omega (arith, total_of-by_user k rows (add_checkin c states), total_of-add_checkin k c states)

total_of-tail :
    (s : UserState) (states rest : List UserState)
    → All (λ y. s.user ≢ user_of y) rest
    → All (λ y. total_of (user_of y) states ≡ y.total) rest
    → All (λ y. total_of (user_of y) (s ∷ states) ≡ y.total) rest
unfolding total_of
total_of-tail s states [] ne h = tt
total_of-tail s states (y ∷ rest) (ne, nes) (hy, h) =
    (ground (arith, same_iff s.user y.user), total_of-tail s states rest nes h)

-- In a map the total of an entry is that of its user.
total_of-user :
    (states : List UserState)
    → Distinct user_of states
    → All (λ s. total_of (user_of s) states ≡ s.total) states
unfolding total_of
total_of-user [] h = tt
total_of-user (s ∷ states) (hs, h) = (
  ground (arith, same_iff s.user s.user),
  total_of-tail s states states hs (total_of-user states h),
)

module _ (rows : List RatedCheckin) where
  abbrev pub IsCounted : LeaderboardEntry → Type 0
  IsCounted e = e.most_checkins ≡ count_of e.username rows

  entry_of-IsCounted :
      (season : ℕ) (from : Time) (states : List UserState)
      → All (λ (s : UserState). s.total ≡ count_of s.user rows) states
      → All IsCounted (map (entry_of season from) states)
  unfolding entry_of
  entry_of-IsCounted season from [] h = tt
  entry_of-IsCounted season from (s ∷ states) (hs, h) =
      (hs, entry_of-IsCounted season from states h)

  by_user-count_of :
      (states : List UserState)
      → All (λ s. total_of (user_of s) (by_user rows []) ≡ s.total) states
      → All (λ (s : UserState). s.total ≡ count_of s.user rows) states
  unfolding total_of
  by_user-count_of [] h = tt
  by_user-count_of (s ∷ states) (hs, h) =
      (omega (arith, hs, total_of-by_user s.user rows []), by_user-count_of states h)

  -- If the map of users is visited in any order, each user once, every entry of the board counts
  -- the check-ins of its user.
  pub compute-IsCounted :
      (visit : List UserState → List UserState)
      → ((states : List UserState) → Permᴰ states (visit states))
      → (p : Platform) (tracked_from now : Time) (tz : Bytes)
      → All IsCounted (compute visit p rows tracked_from now tz)
  unfolding compute
  compute-IsCounted visit every p tracked_from now tz =
      let states = by_user rows [] in
      let counted = by_user-count_of states (total_of-user states (by_user-Distinct rows [] tt)) in
      All-perm IsCounted (sort_slice_rearranges ranks_before _) (
        entry_of-IsCounted (season_weeks_of p tracked_from now tz) tracked_from (visit states)
          (All-perm (λ (s : UserState). s.total ≡ count_of s.user rows) (every states) counted))
