-- ===== src/Storage/Queries/Tests.antt =====
-- Two observers of one packet, and what becomes of a name with a comma.
use mesh_monday.Base.{
  ◌≡◌, refl, arith, [], ◌∷◌, List, Bytes, codes, same, length, keep, any_of, ℕ, All,
}
use mesh_monday.Go.Sort.{sort_slice}
use mesh_monday.Go.Text.{split}
use mesh_monday.Go.Trim.{trim_space}
use mesh_monday.Leaderboard.Compute.{string_less}
use mesh_monday.Storage.Schema.{Checkin, Observation, CheckinPacket, Db, empty_db}
use mesh_monday.Storage.Queries.{
  group_concat, parse_observer_names, observers_of, distinct, week_row,
}
use mesh_monday.Storage.Queries.Observers.{
  IsName, parse_observer_names-group_concat, week_row_observers,
}

abbrev two_names : List Bytes
two_names = codes "roof" ∷ codes "base" ∷ []

two_names-IsName : All IsName two_names
two_names-IsName = (((λ e. cc), omega arith), (((λ e. cc), omega arith), tt))

parse_observer_names-group_concat_example :
    parse_observer_names (group_concat two_names) ≡ sort_slice string_less two_names
parse_observer_names-group_concat_example =
    parse_observer_names-group_concat two_names two_names-IsName

-- One observer whose name has a comma is listed as two.
comma_splits :
    parse_observer_names (group_concat (codes "Ann, roof" ∷ [])) ≡ codes "Ann" ∷ codes "roof" ∷ []
unfolding parse_observer_names group_concat split trim_space sort_slice string_less same
comma_splits = refl

abbrev checkin : Checkin
checkin = record {
  id = 1;
  packet_hash = codes "bb";
  username = codes "avery";
  display_name = codes "Avery";
  message = codes "#meshmonday";
  iata = codes "SEA";
  checkin_date = 739739;
  week_start = 739739;
  created_at = 1;
}

abbrev link : CheckinPacket
link = record {
  id = 1;
  week_start = 739739;
  username = codes "avery";
  packet_hash = codes "bb";
  created_at = 1;
}

abbrev heard : ℕ → Bytes → Observation
heard id key = record { id = id; packet_hash = codes "bb"; observer_key = key; observed_at = 1 }

-- One of the two observers heard the packet twice.
abbrev week_db : Db
week_db = record empty_db {
  checkins = checkin ∷ [];
  checkin_packets = link ∷ [];
  observations = heard 1 (codes "roof") ∷ heard 2 (codes "base") ∷ heard 3 (codes "roof") ∷ [];
}

heard_by : observers_of checkin week_db ≡ codes "base" ∷ codes "roof" ∷ []
unfolding observers_of distinct keep any_of same
heard_by = refl

heard_by-IsName : All IsName (observers_of checkin week_db)
heard_by-IsName = rw heard_by ((((λ e. cc), omega arith), (((λ e. cc), omega arith), tt)))

week_row_observers_example :
    ((week_row week_db checkin).observer_names
      ≡ sort_slice string_less (observers_of checkin week_db))
    × (length (week_row week_db checkin).observer_names ≡ (week_row week_db checkin).observer_count)
week_row_observers_example = week_row_observers week_db checkin heard_by-IsName
