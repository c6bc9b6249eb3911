-- ===== src/Leaderboard/Compute/Order.antt =====
-- The board has one order, whatever order the map of users is visited in.
use mathlib.Core.List.{Permᴰ}
use mathlib.Core.List.Permᴰ
use mesh_monday.Base.{
  ℕ, ◌≡◌, refl, sym, ◌≢◌, true, false, List, [], ◌∷◌, map, arith, Bool-cases, Bytes, same, same_iff,
  inl, inr, All, All-map, ◌≤◌, Distinct,
}
use mesh_monday.Platform.{Platform}
use mesh_monday.Go.Time.{Time}
use mesh_monday.Go.Sort.Order.{IsRanking, sort_slice-perm}
use mesh_monday.Go.Sort.Sorted.{IsSorted, sort_slice-IsSorted}
use mesh_monday.Leaderboard.Compute.{
  RatedCheckin, UserState, LeaderboardEntry, string_less, ranks_before, entry_of, by_user,
  add_to_state, add_checkin, season_weeks_of, compute,
}

pub string_less-one_way : (s t : Bytes) → string_less s t ≡ true → string_less t s ≡ false
unfolding string_less
string_less-one_way s [] e = cc
string_less-one_way [] (b ∷ t) e = refl
string_less-one_way (a ∷ s) (b ∷ t) e = ground (arith, string_less-one_way s t)

pub string_less-total : (s t : Bytes) → s ≢ t → string_less s t ≡ false → string_less t s ≡ true
unfolding string_less
string_less-total [] [] ne e = absurd (ne refl)
string_less-total (a ∷ s) [] ne e = refl
string_less-total [] (b ∷ t) ne e = cc
string_less-total (a ∷ s) (b ∷ t) ne e = ground (arith, string_less-total s t)

pub string_less-between :
    (s t u : Bytes) → string_less u t ≡ true → string_less u s ≡ false → string_less s t ≡ true
unfolding string_less
string_less-between s [] u e f = cc
string_less-between [] (b ∷ t) u e f = refl
string_less-between (a ∷ s) (b ∷ t) [] e f = cc
string_less-between (a ∷ s) (b ∷ t) (c ∷ u) e f = ground (arith, string_less-between s t u)

abbrev pub username_of : LeaderboardEntry → Bytes
username_of e = e.username

ranks_before-IsRanking : IsRanking username_of ranks_before
unfolding ranks_before
ranks_before-IsRanking = record {
  one_way = λ x y e. ground (arith, string_less-one_way x.username y.username);
  total = λ x y ne e. ground (arith, string_less-total x.username y.username ne);
  between = λ x y z e f. ground (arith, string_less-between x.username y.username z.username);
}

abbrev pub user_of : UserState → Bytes
user_of s = s.user

add_checkin-All :
    (k : Bytes) (c : RatedCheckin) (states : List UserState)
    → k ≢ c.username
    → All (λ s. k ≢ user_of s) states
    → All (λ s. k ≢ user_of s) (add_checkin c states)
unfolding add_checkin add_to_state
add_checkin-All k c [] ne h = (ne, tt)
add_checkin-All k c (s ∷ states) ne (hs, h) = elim (Bool-cases (same s.user c.username)) [
  | inl e ↦ rw e (hs, h)
  | inr e ↦ rw e (hs, add_checkin-All k c states ne h)
]

add_checkin-Distinct :
    (c : RatedCheckin) (states : List UserState)
    → Distinct user_of states
    → Distinct user_of (add_checkin c states)
unfolding add_checkin add_to_state
add_checkin-Distinct c [] h = (tt, tt)
add_checkin-Distinct c (s ∷ states) (hs, h) = elim (Bool-cases (same s.user c.username)) [
  | inl e ↦ rw e (hs, h)
  | inr e ↦ rw e (
    add_checkin-All s.user c states (λ q. cc (e, (same_iff s.user c.username).1 q)) hs,
    add_checkin-Distinct c states h,
  )
]

-- No user is grouped twice.
pub by_user-Distinct :
    (rows : List RatedCheckin) (states : List UserState)
    → Distinct user_of states
    → Distinct user_of (by_user rows states)
unfolding by_user
by_user-Distinct [] states h = h
by_user-Distinct (c ∷ rows) states h =
    by_user-Distinct rows (add_checkin c states) (add_checkin-Distinct c states h)

module _ (season : ℕ) (from : Time) where
  All-entry_of :
      (k : Bytes) (states : List UserState)
      → All (λ s. k ≢ user_of s) states
      → All (λ e. k ≢ username_of e) (map (entry_of season from) states)
  unfolding entry_of
  All-entry_of k [] h = tt
  All-entry_of k (s ∷ states) (hs, h) = (hs, All-entry_of k states h)

  Distinct-entry_of :
      (states : List UserState)
      → Distinct user_of states
      → Distinct username_of (map (entry_of season from) states)
  unfolding entry_of
  Distinct-entry_of [] h = tt
  Distinct-entry_of (s ∷ states) (hs, h) =
      (All-entry_of s.user states hs, Distinct-entry_of states h)

-- Whatever order the map of users is visited in, each user once, the board is that of the users in
-- the order of their first check-ins.
pub compute-visit :
    (visit : List UserState → List UserState)
    → ((states : List UserState) → Permᴰ states (visit states))
    → (p : Platform) (rows : List RatedCheckin) (tracked_from now : Time) (tz : Bytes)
    → compute visit p rows tracked_from now tz
      ≡ compute (λ states. states) p rows tracked_from now tz
unfolding compute
compute-visit visit every p rows tracked_from now tz =
    let season = season_weeks_of p tracked_from now tz in
    sym (
      sort_slice-perm username_of ranks_before ranks_before-IsRanking
        (Permᴰ.map (entry_of season tracked_from) (every (by_user rows [])))
        (Distinct-entry_of season tracked_from (by_user rows []) (by_user-Distinct rows [] tt)))

-- The first of two entries may stand before the second: it has as many check-ins or more; with as many
-- it has as long a streak or a longer one; with both alike its name is not after the other's.
pub record StandsBefore (a b : LeaderboardEntry) : Type 0 where
  pub checkins : b.most_checkins ≤ a.most_checkins
  pub streak : a.most_checkins ≡ b.most_checkins → b.longest_streak ≤ a.longest_streak
  pub name :
      a.most_checkins ≡ b.most_checkins
      → a.longest_streak ≡ b.longest_streak
      → string_less b.username a.username ≡ false

-- Each entry stands before all that follow it.
abbrev pub IsBoardOrder : List LeaderboardEntry → Type 0
IsBoardOrder [] = Unit
IsBoardOrder (e ∷ entries) = All (StandsBefore e) entries × IsBoardOrder entries

ranks_before-StandsBefore : (a b : LeaderboardEntry) → ranks_before b a ≡ false → StandsBefore a b
unfolding ranks_before
ranks_before-StandsBefore a b e = record {
  checkins = ground (arith, e);
  streak = λ q. ground (arith, e, q);
  name = λ q r. ground (arith, e, q, r);
}

sorted-IsBoardOrder :
    (entries : List LeaderboardEntry) → IsSorted ranks_before entries → IsBoardOrder entries
sorted-IsBoardOrder [] h = tt
sorted-IsBoardOrder (a ∷ entries) (ha, h) =
    (All-map (λ b e. ranks_before-StandsBefore a b e) entries ha, sorted-IsBoardOrder entries h)

-- The board stands in order: more check-ins first, then the longer streak, then the name.
pub compute-IsBoardOrder :
    (visit : List UserState → List UserState) (p : Platform) (rows : List RatedCheckin)
    (tracked_from now : Time) (tz : Bytes)
    → IsBoardOrder (compute visit p rows tracked_from now tz)
unfolding compute
compute-IsBoardOrder visit p rows tracked_from now tz =
    sorted-IsBoardOrder (compute visit p rows tracked_from now tz) (
      sort_slice-IsSorted username_of ranks_before ranks_before-IsRanking (
        map (entry_of (season_weeks_of p tracked_from now tz) tracked_from)
          (visit (by_user rows []))))
