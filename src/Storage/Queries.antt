-- ===== src/Storage/Queries.antt =====
-- The queries of internal/storage/sqlite.go that list rows. SQL leaves the order of rows that tie
-- open; here they stay in the order of the table.
pub mod Observers
pub mod Listed
mod Tests
use mesh_monday.Base.{
  ℕ, Bool, true, false, not, ◌&&◌, ◌||◌, List, [], ◌∷◌, ◌++◌, map, Bytes, codes, ltb, leb, ◌==◌,
  if◌then◌else◌, same, keep, any_of, length, Result, ok, err,
}
use mesh_monday.Go.Text.{split}
use mesh_monday.Go.Trim.{trim_space}
use mesh_monday.Go.Sort.{sort_slice}
use mesh_monday.Leaderboard.Compute.{string_less}
use mesh_monday.Storage.Schema.{RawPacket, Checkin, Observation, CheckinPacket, Db}
use mesh_monday.Storage.Exec.{Exec, exec}
use mesh_monday.Storage.Statements.{Outcome}

-- The links of a user's week: cp.week_start = c.week_start AND cp.username = c.username
abbrev pub links_of : Checkin → Db → List CheckinPacket
links_of c db =
    keep (λ (l : CheckinPacket). l.week_start == c.week_start && same l.username c.username)
      db.checkin_packets

-- rp.packet_hash = cp.packet_hash AND rp.iata IN (…)
abbrev pub seen_in : List Bytes → Db → CheckinPacket → Bool
seen_in filters db l =
    any_of (λ (r : RawPacket). same r.packet_hash l.packet_hash && any_of (same r.iata) filters)
      db.raw_packets

-- The EXISTS clause, which is only there if there are filters.
pub passes : List Bytes → Db → Checkin → Bool
passes [] db c = true
passes (f ∷ fs) db c = any_of (seen_in (f ∷ fs) db) (links_of c db)

-- ORDER BY checkin_date ASC, username ASC
pub since_less : Checkin → Checkin → Bool
since_less a b =
    if not (a.checkin_date == b.checkin_date)
    then ltb a.checkin_date b.checkin_date
    else string_less a.username b.username

unfoldable pub select_since : List Bytes → ℕ → Db → Outcome (List Checkin)
select_since filters track_from db = (
  ok (
      sort_slice since_less
        (keep (λ (c : Checkin). leb track_from c.checkin_date && passes filters db c) db.checkins)),
  db,
)

-- `ListCheckinsSince`, from the day on.
unfoldable pub list_checkins_since : List Bytes → ℕ → Exec (List Checkin)
list_checkins_since filters track_from = exec (select_since filters track_from)

-- COUNT(DISTINCT …) and GROUP_CONCAT(DISTINCT …) count and list a value once.
pub distinct : List Bytes → List Bytes
distinct [] = []
distinct (k ∷ ks) = let rest = distinct ks in if any_of (same k) rest then rest else k ∷ rest

abbrev observed_by : List Observation → CheckinPacket → List Bytes
observed_by observations l =
    map (λ (o : Observation). o.observer_key)
      (keep (λ (o : Observation). same o.packet_hash l.packet_hash) observations)

observers_of_links : List Observation → List CheckinPacket → List Bytes
observers_of_links observations [] = []
observers_of_links observations (l ∷ ls) =
    observed_by observations l ++ observers_of_links observations ls

-- Everyone who heard a packet of the user's week.
pub observers_of : Checkin → Db → List Bytes
unfolding observers_of_links
observers_of c db = distinct (observers_of_links db.observations (links_of c db))

-- GROUP_CONCAT joins with a comma; no rows give the empty text.
pub group_concat : List Bytes → Bytes
group_concat [] = []
group_concat (k ∷ []) = k
group_concat (k ∷ l ∷ ks) = k ++ (b',' ∷ group_concat (l ∷ ks))

-- The loop of `parseObserverNames`.
observer_names : List Bytes → List Bytes
observer_names [] = []
observer_names (part ∷ parts) =
    let name = trim_space part in
    let rest = observer_names parts in if same name [] then rest else name ∷ rest

-- `parseObserverNames`
unfoldable pub parse_observer_names : Bytes → List Bytes
unfolding observer_names
parse_observer_names csv =
    let value = trim_space csv in
    let names = sort_slice string_less (observer_names (split value b',')) in
    if same value [] then [] else names

-- What `ListCheckinsByWeek` lists of a check-in.
pub record WeekRow : Type 0 where
  pub checkin : Checkin
  pub observer_count : ℕ
  pub observer_names : List Bytes

-- ORDER BY c.created_at DESC, c.display_name ASC
pub week_less : Checkin → Checkin → Bool
week_less a b =
    if not (a.created_at == b.created_at)
    then ltb b.created_at a.created_at
    else string_less a.display_name b.display_name

pub week_row : Db → Checkin → WeekRow
week_row db c =
    let observers = observers_of c db in
    record {
      checkin = c;
      observer_count = length observers;
      observer_names = parse_observer_names (group_concat observers);
    }

unfoldable pub select_week : List Bytes → ℕ → Db → Outcome (List WeekRow)
select_week filters week_start db = (
  ok (
      map (week_row db) (
        sort_slice week_less
          (keep (λ (c : Checkin). c.week_start == week_start && passes filters db c) db.checkins))),
  db,
)

-- `ListCheckinsByWeek`
unfoldable pub list_checkins_by_week : List Bytes → ℕ → Exec (List WeekRow)
list_checkins_by_week filters week_start = exec (select_week filters week_start)

-- ORDER BY observed_at ASC. SQLite compares the stored texts, which for the handler's times, all in UTC,
-- stand in the order of the instants; cmd/devseed stores local times, which need not.
pub restore_less : RawPacket → RawPacket → Bool
restore_less a b = ltb a.observed_at b.observed_at

-- The rows that `ForEachRawPacketForRestore` hands to its callback, one after the other.
unfoldable pub select_restore : Db → Outcome (List RawPacket)
select_restore db = (ok (sort_slice restore_less db.raw_packets), db)
