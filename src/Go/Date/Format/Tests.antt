-- ===== src/Go/Date/Format/Tests.antt =====
-- A time of a summer in Seattle, the leap day of 2024 and the last second of a year.
use mesh_monday.Base.{◌+◌, ◌-◌, ◌*◌, ◌^◌, ◌≡◌, refl, codes}
use mesh_monday.Go.Time.{Zone, utc, local_seconds}
use mesh_monday.Go.Date.{days_in}
use mesh_monday.Go.Date.Format.{format_rfc3339, civil}

abbrev summer : Zone
summer = record { lookup = λ _. record { ahead = 0; behind = 25200; first = 0; last = 2 ^ 64 } }

seattle :
    format_rfc3339 (record { unix = 739739 * 86400 + 57600; zone = summer })
    ≡ codes "2026-05-04T09:00:00-07:00"
unfolding format_rfc3339 civil local_seconds days_in
seattle = refl

leap_day :
    format_rfc3339 (record { unix = 738944 * 86400 + 61; zone = utc })
    ≡ codes "2024-02-29T00:01:01Z"
unfolding format_rfc3339 civil local_seconds days_in
leap_day = refl

last_second :
    format_rfc3339 (record { unix = 739616 * 86400 - 1; zone = utc }) ≡ codes "2025-12-31T23:59:59Z"
unfolding format_rfc3339 civil local_seconds days_in
last_second = refl
