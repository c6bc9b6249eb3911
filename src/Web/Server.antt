-- ===== src/Web/Server.antt =====
-- `Server`: from a request to the reply. A reply is what is handed to a template or to the JSON
-- encoder, which are not modelled; nor is the file server behind /static/.
pub mod Requests
pub mod Board
use mesh_monday.Base.{
  ℕ, ◌*◌, Bool, true, false, not, ◌||◌, List, [], ◌∷◌, ◌++◌, map, Option, none, some, Bytes, codes,
  if◌then◌else◌, same, length, Result, ok, err,
}
use mesh_monday.Base.Int.{ℤ}
use mesh_monday.Platform.{Platform}
use mesh_monday.Config.{Config, iata_filter_label}
use mesh_monday.Go.Text.{has_prefix}
use mesh_monday.Go.Trim.{trim_space}
use mesh_monday.Go.Time.{Time, utc, day_of, day_seconds}
use mesh_monday.Go.Date.{parse_date}
use mesh_monday.Checkins.Weeks.{week_start_monday}
use mesh_monday.Leaderboard.Compute.{RatedCheckin, UserState, LeaderboardEntry, compute}
use mesh_monday.Storage.Schema.{Checkin}
use mesh_monday.Storage.Exec.{SqlError, World, Exec}
use mesh_monday.Storage.Queries.{WeekRow, list_checkins_by_week, list_checkins_since}
use mesh_monday.Storage.Snapshots.{replace_leaderboard_snapshots}
use mesh_monday.Web.Format.{configured_hashtag_channels}

-- A request: its method, its path after cleaning, and the `week` parameter, empty if there is none.
pub record Request : Type 0 where
  pub method : Bytes
  pub path : Bytes
  pub week : Bytes

pub record MondayData : Type 0 where
  pub week_start : ℕ
  pub mesh_name : Bytes
  pub listen_channels : List Bytes
  pub dicebear_style : Bytes
  pub ui_poll_seconds : ℤ
  pub iata : Bytes
  pub count : ℕ
  pub checkins : List WeekRow

pub record LeaderboardData : Type 0 where
  pub entries : List LeaderboardEntry
  pub mesh_name : Bytes
  pub tracked_from : ℕ
  pub dicebear_style : Bytes
  pub ui_poll_seconds : ℤ

-- What a handler replies. The week of the JSON interface is the day, the label, the count and rows.
pub data Reply : Type 0 where
  static_file method_not_allowed : Reply
  health ready : Reply
  invalid_week_page internal_error_page : Reply
  invalid_week_json internal_error_json : Reply
  monday_page : MondayData → Reply
  leaderboard_page : LeaderboardData → Reply
  week_json : ℕ → Bytes → ℕ → List WeekRow → Reply
  leaderboard_json : ℕ → List LeaderboardEntry → Reply

-- The status that goes with it.
abbrev pub status : Reply → ℕ
status method_not_allowed = 405
status invalid_week_page = 400
status invalid_week_json = 400
status internal_error_page = 500
status internal_error_json = 500
status _ = 200

-- `allowReadMethod`
unfoldable pub allow_read_method : Request → Bool
allow_read_method r = same r.method (codes "GET") || same r.method (codes "HEAD")

-- `parseWeekStart`: the day of the week asked for; `none` is the error.
pub parse_week_start : Platform → Request → Time → Bytes → Option ℕ
parse_week_start p r now tz =
    let raw = trim_space r.week in
    if same raw [] then some (day_of (week_start_monday p now tz)) else parse_date raw

-- A date column is read back as midnight in UTC.
abbrev pub rated : Checkin → RatedCheckin
rated c = record {
  username = c.username;
  display_name = c.display_name;
  week_start = record { unix = c.week_start * day_seconds; zone = utc };
}

-- The server, and what one request reads besides: the clock, at three places, and the order in which
-- a map is visited.
pub record Server : Type 0 where
  pub cfg : Config
  pub visit : List UserState → List UserState
  pub now : Time
  pub computed_at : ℕ

-- The entries are returned also where storing them fails.
store_board :
    Server → List LeaderboardEntry → World → Result SqlError (List LeaderboardEntry) × World
store_board s entries w = (ok entries, (replace_leaderboard_snapshots entries s.computed_at w).1)

rank :
    Platform
    → Server
    → Result SqlError (List Checkin) × World
    → Result SqlError (List LeaderboardEntry) × World
unfolding store_board
rank p s (err e, w) = (err e, w)
rank p s (ok rows, w) =
    store_board s (compute s.visit p (map rated rows) s.cfg.track_from_date s.now s.cfg.tz) w

-- `computeLeaderboard`
pub compute_leaderboard : Platform → Server → Exec (List LeaderboardEntry)
unfolding rank
compute_leaderboard p s w =
    rank p s (list_checkins_since s.cfg.iata_filters (day_of s.cfg.track_from_date) w)

abbrev pub Handler : Type 0
Handler = World → Reply × World

if_read : Request → Handler → Handler
if_read r handler w = if allow_read_method r then handler w else (method_not_allowed, w)

monday_reply : Platform → Server → ℕ → Result SqlError (List WeekRow) × World → Reply × World
monday_reply p s week_start (err e, w) = (internal_error_page, w)
monday_reply p s week_start (ok items, w) = (
  monday_page (record {
    week_start = week_start;
    mesh_name = s.cfg.mesh_name;
    listen_channels = configured_hashtag_channels p s.cfg.hashtag_channels;
    dicebear_style = s.cfg.dicebear_style;
    ui_poll_seconds = s.cfg.ui_poll_seconds;
    iata = iata_filter_label s.cfg;
    count = length items;
    checkins = items;
  }),
  w,
)

-- `handleMondayPage`
handle_monday_page : Platform → Server → Request → Handler
unfolding monday_reply
handle_monday_page p s r w = elim (parse_week_start p r s.now s.cfg.tz) [
  | none ↦ (invalid_week_page, w)
  | some day ↦ monday_reply p s day (list_checkins_by_week s.cfg.iata_filters day w)
]

leaderboard_reply : Server → Result SqlError (List LeaderboardEntry) × World → Reply × World
leaderboard_reply s (err e, w) = (internal_error_page, w)
leaderboard_reply s (ok entries, w) = (
  leaderboard_page (record {
    entries = entries;
    mesh_name = s.cfg.mesh_name;
    tracked_from = day_of s.cfg.track_from_date;
    dicebear_style = s.cfg.dicebear_style;
    ui_poll_seconds = s.cfg.ui_poll_seconds;
  }),
  w,
)

-- `handleLeaderboardPage`
handle_leaderboard_page : Platform → Server → Handler
unfolding leaderboard_reply
handle_leaderboard_page p s w = leaderboard_reply s (compute_leaderboard p s w)

week_reply : Server → ℕ → Result SqlError (List WeekRow) × World → Reply × World
week_reply s week_start (err e, w) = (internal_error_json, w)
week_reply s week_start (ok items, w) =
    (week_json week_start (iata_filter_label s.cfg) (length items) items, w)

-- `handleAPIWeekCheckins`
handle_api_week_checkins : Platform → Server → Request → Handler
unfolding week_reply
handle_api_week_checkins p s r w = elim (parse_week_start p r s.now s.cfg.tz) [
  | none ↦ (invalid_week_json, w)
  | some day ↦ week_reply s day (list_checkins_by_week s.cfg.iata_filters day w)
]

api_leaderboard_reply : Server → Result SqlError (List LeaderboardEntry) × World → Reply × World
api_leaderboard_reply s (err e, w) = (internal_error_json, w)
api_leaderboard_reply s (ok entries, w) =
    (leaderboard_json (day_of s.cfg.track_from_date) entries, w)

-- `handleAPILeaderboard`
handle_api_leaderboard : Platform → Server → Handler
unfolding api_leaderboard_reply
handle_api_leaderboard p s w = api_leaderboard_reply s (compute_leaderboard p s w)

-- The patterns of `Routes`; `/` matches what no other pattern does.
pub data Route : Type 0 where
  static healthz readyz api_checkins api_leaderboard leaderboard monday : Route

unfoldable pub route : Bytes → Route
route path =
    if has_prefix path (codes "/static/") || same path (codes "/static")
    then static
    else if same path (codes "/healthz")
    then healthz
    else if same path (codes "/readyz")
    then readyz
    else if same path (codes "/api/checkins")
    then api_checkins
    else if same path (codes "/api/leaderboard")
    then api_leaderboard
    else if same path (codes "/leaderboard")
    then leaderboard
    else monday

dispatch : Platform → Server → Request → Route → Handler
unfolding if_read handle_monday_page handle_leaderboard_page handle_api_week_checkins
    handle_api_leaderboard
dispatch p s r static w = (static_file, w)
dispatch p s r healthz w = if_read r (λ w. (health, w)) w
dispatch p s r readyz w = if_read r (λ w. (ready, w)) w
dispatch p s r api_checkins w = if_read r (handle_api_week_checkins p s r) w
dispatch p s r api_leaderboard w = if_read r (handle_api_leaderboard p s) w
dispatch p s r leaderboard w = if_read r (handle_leaderboard_page p s) w
dispatch p s r monday w = if_read r (handle_monday_page p s r) w

-- What the middleware and `allowReadMethod` set.
allow_header : Reply → List (Bytes × Bytes)
allow_header method_not_allowed = (codes "Allow", codes "GET, HEAD") ∷ []
allow_header _ = []

pub record Response : Type 0 where
  pub headers : List (Bytes × Bytes)
  pub reply : Reply

-- `securityHeadersMiddleware` sets its headers before the handler runs.
abbrev pub security_headers : List (Bytes × Bytes)
security_headers =
    (codes "X-Content-Type-Options", codes "nosniff")
    ∷ (codes "X-Frame-Options", codes "DENY")
    ∷ (codes "Referrer-Policy", codes "strict-origin-when-cross-origin")
    ∷ []

-- `Routes`: one request, through the middleware to its handler.
pub serve : Platform → Server → Request → World → Response × World
unfolding dispatch allow_header
serve p s r w =
    let (reply, w') = dispatch p s r (route r.path) w in
    (record { headers = security_headers ++ allow_header reply; reply = reply }, w')
