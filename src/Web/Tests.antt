-- ===== src/Web/Tests.antt =====
-- The rings, channels and handlers of internal/web/server_test.go, on a store with one check-in.
use mathlib.Core.List.Permᴰ
use mesh_monday.Base.{
  ◌*◌, ◌≤◌, ◌≡◌, ◌≢◌, ◌↔◌, refl, false, List, [], ◌∷◌, none, Bytes, codes, arith, same, same_iff,
}
use mesh_monday.Go.Time.{utc}
use mesh_monday.Go.Text.{has_prefix}
use mesh_monday.Checkins.Tests.{plain}
use mesh_monday.Config.Tests.{test_config}
use mesh_monday.Storage.Schema.{Checkin, empty_db}
use mesh_monday.Storage.Exec.{World}
use mesh_monday.Web.Format.{leaderboard_ring_fill, configured_hashtag_channels}
use mesh_monday.Web.Format.Bounds.{leaderboard_ring_fill_bounds}
use mesh_monday.Web.Format.Channels.{IsChannelList, configured_hashtag_channels-IsChannelList}
use mesh_monday.Web.Server.{Request, Server, route, static, compute_leaderboard, serve}
use mesh_monday.Web.Server.Board.{IsBoard, compute_leaderboard-IsBoard}
use mesh_monday.Web.Server.Requests.{OnlySnapshots, NotAllowed, serve-OnlySnapshots, serve_refused}

leaderboard_ring_fill_bounds_example :
    (leaderboard_ring_fill 3 4 ≤ 100) × ((leaderboard_ring_fill 3 4 ≡ 100) ↔ (4 ≤ 3))
leaderboard_ring_fill_bounds_example = leaderboard_ring_fill_bounds 3 4 (omega arith)

abbrev tags : List Bytes
tags = codes " #Seattle" ∷ codes "seattle" ∷ codes "#MeshMonday" ∷ []

tags_listed : IsChannelList (configured_hashtag_channels plain tags)
tags_listed = configured_hashtag_channels-IsChannelList plain tags

abbrev pub checkin : Checkin
checkin = record {
  id = 1;
  packet_hash = codes "bb";
  username = codes "avery";
  display_name = codes "Avery";
  message = codes "#meshmonday";
  iata = codes "SEA";
  checkin_date = 739739;
  week_start = 739739;
  created_at = 1;
}

abbrev one_checkin : World
one_checkin = record { db = record empty_db { checkins = checkin ∷ [] }; faults = []; waits = [] }

abbrev server : Server
server = record {
  cfg = test_config;
  visit = λ states. states;
  now = record { unix = 739742 * 86400; zone = utc };
  computed_at = 1;
}

abbrev board_request : Request
board_request = record { method = codes "GET"; path = codes "/api/leaderboard"; week = [] }

abbrev post_request : Request
post_request = record { method = codes "POST"; path = codes "/api/leaderboard"; week = [] }

compute_leaderboard-IsBoard_example :
    IsBoard server one_checkin.db none (compute_leaderboard plain server one_checkin).0
compute_leaderboard-IsBoard_example =
    compute_leaderboard-IsBoard plain server Permᴰ.refl one_checkin

serve-OnlySnapshots_example :
    OnlySnapshots one_checkin.db (serve plain server board_request one_checkin).1.db
serve-OnlySnapshots_example = serve-OnlySnapshots plain server board_request one_checkin

differ : (a b : Bytes) → same a b ≡ false → a ≢ b
differ a b e f = let f' = (same_iff a b).1 f in cc

not_get : post_request.method ≢ codes "GET"
unfolding same
not_get = differ post_request.method (codes "GET") refl

not_head : post_request.method ≢ codes "HEAD"
unfolding same
not_head = differ post_request.method (codes "HEAD") refl

post_route : route post_request.path ≢ static
unfolding route same has_prefix
post_route e = cc

serve_refused_example : NotAllowed one_checkin (serve plain server post_request one_checkin)
serve_refused_example =
    serve_refused plain server post_request one_checkin post_route not_get not_head
