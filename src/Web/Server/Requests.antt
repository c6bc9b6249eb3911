-- ===== src/Web/Server/Requests.antt =====
-- What a request may change, and what is refused.
use mesh_monday.Base.{
  ℕ, ◌≡◌, ◌≢◌, refl, ap, sym, ◌∙◌, false, List, [], ◌∷◌, ◌++◌, Option, none, some, inl, inr,
  Bool-cases, Bytes, same, same_iff, codes, Result, ok, err,
}
use mesh_monday.Platform.{Platform}
use mesh_monday.Leaderboard.Compute.{LeaderboardEntry}
use mesh_monday.Storage.Schema.{Db, Checkin, Snapshot}
use mesh_monday.Storage.Exec.{SqlError, World}
use mesh_monday.Storage.Keeps.{Keeps, exec-Keeps}
use mesh_monday.Storage.Queries.{
  WeekRow, select_since, select_week, list_checkins_since, list_checkins_by_week,
}
use mesh_monday.Storage.Snapshots.Atomic.{Replaces, replace_leaderboard_snapshots-Replaces}
use mesh_monday.Web.Server.{
  Request, Response, status, method_not_allowed, health, ready, Server, Route, static, healthz,
  readyz, api_checkins, api_leaderboard, leaderboard, monday, allow_read_method, parse_week_start,
  rank, store_board, compute_leaderboard, Handler, if_read, monday_reply, handle_monday_page,
  leaderboard_reply, handle_leaderboard_page, week_reply, handle_api_week_checkins,
  api_leaderboard_reply, handle_api_leaderboard, route, dispatch, allow_header, security_headers,
  serve,
}

-- `b` is `a` but for the snapshots of the board.
abbrev pub OnlySnapshots : Db → Db → Type 0
OnlySnapshots a b = b ≡ record a { snapshots = b.snapshots }

module _ (a : Db) where
  since-OnlySnapshots :
      (filters : List Bytes) (day : ℕ) → Keeps (OnlySnapshots a) (list_checkins_since filters day)
  unfolding list_checkins_since select_since
  since-OnlySnapshots filters day =
      exec-Keeps (OnlySnapshots a) (select_since filters day) (λ db h. h)

  week-OnlySnapshots :
      (filters : List Bytes) (day : ℕ) → Keeps (OnlySnapshots a) (list_checkins_by_week filters day)
  unfolding list_checkins_by_week select_week
  week-OnlySnapshots filters day =
      exec-Keeps (OnlySnapshots a) (select_week filters day) (λ db h. h)

  Replaces-OnlySnapshots :
      (rows : List Snapshot) (db : Db) (r : Result SqlError (Unit {0}) × World)
      → OnlySnapshots a db
      → Replaces rows db r
      → OnlySnapshots a r.1.db
  Replaces-OnlySnapshots rows db (ok u, w) h e =
      e
      ∙ ap (λ (d : Db). record d { snapshots = rows }) h
      ∙ ap (λ (d : Db). record a { snapshots = d.snapshots }) (sym e)
  Replaces-OnlySnapshots rows db (err f, w) h e = rw e h

  module _ (p : Platform) (s : Server) where
    rank-OnlySnapshots :
        (r : Result SqlError (List Checkin) × World)
        → OnlySnapshots a r.1.db
        → OnlySnapshots a (rank p s r).1.db
    unfolding rank store_board
    rank-OnlySnapshots (err e, w) h = h
    rank-OnlySnapshots (ok rows, w) h =
        Replaces-OnlySnapshots _ w.db _ h (replace_leaderboard_snapshots-Replaces _ s.computed_at w)

    board-OnlySnapshots : Keeps (OnlySnapshots a) (compute_leaderboard p s)
    unfolding compute_leaderboard
    board-OnlySnapshots w h = rank-OnlySnapshots _ (since-OnlySnapshots _ _ w h)

    monday-OnlySnapshots :
        (day : Option ℕ) (r : Request) (w : World)
        → parse_week_start p r s.now s.cfg.tz ≡ day
        → OnlySnapshots a w.db
        → OnlySnapshots a (handle_monday_page p s r w).1.db
    unfolding handle_monday_page monday_reply
    monday-OnlySnapshots none r w e h = rw (e, handle_monday_page) h
    monday-OnlySnapshots (some day) r w e h =
        rw (e, handle_monday_page) (reply _ (week-OnlySnapshots s.cfg.iata_filters day w h))
      where
        reply :
            (x : Result SqlError (List WeekRow) × World)
            → OnlySnapshots a x.1.db
            → OnlySnapshots a (monday_reply p s day x).1.db
        reply (err e, w) h = h
        reply (ok items, w) h = h

    api_week-OnlySnapshots :
        (day : Option ℕ) (r : Request) (w : World)
        → parse_week_start p r s.now s.cfg.tz ≡ day
        → OnlySnapshots a w.db
        → OnlySnapshots a (handle_api_week_checkins p s r w).1.db
    unfolding handle_api_week_checkins week_reply
    api_week-OnlySnapshots none r w e h = rw (e, handle_api_week_checkins) h
    api_week-OnlySnapshots (some day) r w e h =
        rw (e, handle_api_week_checkins) (reply _ (week-OnlySnapshots s.cfg.iata_filters day w h))
      where
        reply :
            (x : Result SqlError (List WeekRow) × World)
            → OnlySnapshots a x.1.db
            → OnlySnapshots a (week_reply s day x).1.db
        reply (err e, w) h = h
        reply (ok items, w) h = h

    leaderboard-OnlySnapshots :
        (x : Result SqlError (List LeaderboardEntry) × World)
        → OnlySnapshots a x.1.db
        → OnlySnapshots a (leaderboard_reply s x).1.db
          × OnlySnapshots a (api_leaderboard_reply s x).1.db
    unfolding leaderboard_reply api_leaderboard_reply
    leaderboard-OnlySnapshots (err e, w) h = (h, h)
    leaderboard-OnlySnapshots (ok entries, w) h = (h, h)

    if_read-OnlySnapshots :
        (r : Request) (handler : Handler) (w : World)
        → OnlySnapshots a w.db
        → OnlySnapshots a (handler w).1.db
        → OnlySnapshots a (if_read r handler w).1.db
    unfolding if_read
    if_read-OnlySnapshots r handler w h k = elim (Bool-cases (allow_read_method r)) [
      | inl e ↦ rw e k
      | inr e ↦ rw e h
    ]

    dispatch-OnlySnapshots :
        (to : Route) (r : Request) (w : World)
        → OnlySnapshots a w.db
        → OnlySnapshots a (dispatch p s r to w).1.db
    unfolding dispatch handle_leaderboard_page handle_api_leaderboard
    dispatch-OnlySnapshots static r w h = h
    dispatch-OnlySnapshots healthz r w h = if_read-OnlySnapshots r (λ w. (health, w)) w h h
    dispatch-OnlySnapshots readyz r w h = if_read-OnlySnapshots r (λ w. (ready, w)) w h h
    dispatch-OnlySnapshots api_checkins r w h =
        if_read-OnlySnapshots r (handle_api_week_checkins p s r) w h
          (api_week-OnlySnapshots _ r w refl h)
    dispatch-OnlySnapshots api_leaderboard r w h =
        if_read-OnlySnapshots r (handle_api_leaderboard p s) w h
          (leaderboard-OnlySnapshots _ (board-OnlySnapshots w h)).1
    dispatch-OnlySnapshots leaderboard r w h =
        if_read-OnlySnapshots r (handle_leaderboard_page p s) w h
          (leaderboard-OnlySnapshots _ (board-OnlySnapshots w h)).0
    dispatch-OnlySnapshots monday r w h =
        if_read-OnlySnapshots r (handle_monday_page p s r) w h (monday-OnlySnapshots _ r w refl h)

-- Whatever is asked and whatever fails, a request changes nothing in the store but the snapshots of
-- the board.
pub serve-OnlySnapshots :
    (p : Platform) (s : Server) (r : Request) (w : World) → OnlySnapshots w.db (serve p s r w).1.db
unfolding serve
serve-OnlySnapshots p s r w = dispatch-OnlySnapshots w.db p s (route r.path) r w refl

refused :
    (p : Platform) (s : Server) (r : Request) (to : Route) (w : World)
    → to ≢ static
    → allow_read_method r ≡ false
    → dispatch p s r to w ≡ (method_not_allowed, w)
unfolding dispatch if_read
refused p s r static w ne e = absurd (ne refl)
refused p s r healthz w ne e = rw e refl
refused p s r readyz w ne e = rw e refl
refused p s r api_checkins w ne e = rw e refl
refused p s r api_leaderboard w ne e = rw e refl
refused p s r leaderboard w ne e = rw e refl
refused p s r monday w ne e = rw e refl

-- A method is refused unless it is one of the two.
other_method :
    (r : Request) → r.method ≢ codes "GET" → r.method ≢ codes "HEAD" → allow_read_method r ≡ false
unfolding allow_read_method
other_method r get head = elim (Bool-cases (same r.method (codes "GET"))) [
  | inl e ↦ absurd (get ((same_iff r.method (codes "GET")).0 e))
  | inr e ↦ elim (Bool-cases (same r.method (codes "HEAD"))) [
    | inl f ↦ absurd (head ((same_iff r.method (codes "HEAD")).0 f))
    | inr f ↦ rw (e, f) refl
  ]
]

-- The answer to a method that is not allowed, where the request began in `w`.
pub record NotAllowed (w : World) (x : Response × World) : Type 0 where
  pub code : status x.0.reply ≡ 405
  pub headers : x.0.headers ≡ security_headers ++ (codes "Allow", codes "GET, HEAD") ∷ []
  pub same_world : x.1 ≡ w

-- A request whose method is neither GET nor HEAD, to any path but those of static files, is answered
-- with status 405, the security headers and an Allow header that lists the two methods, and changes
-- nothing.
pub serve_refused :
    (p : Platform) (s : Server) (r : Request) (w : World)
    → route r.path ≢ static
    → r.method ≢ codes "GET"
    → r.method ≢ codes "HEAD"
    → NotAllowed w (serve p s r w)
unfolding serve allow_header
serve_refused p s r w ne get head =
    rw (refused p s r (route r.path) w ne (other_method r get head))
      (record { code = refl; headers = refl; same_world = refl })
