-- ===== src/Web/Format/Bounds.antt =====
-- The ring of the leaderboard stays between nothing and full.
use native.Mathlib.Nat.{le-div_iff_mul-le}
use mesh_monday.Base.{ℕ, ◌*◌, ◌/◌, ◌≤◌, ◌≡◌, ◌↔◌, arith}
use mesh_monday.Web.Format.{leaderboard_ring_fill}

hundredfold : (c w : ℕ) → 1 ≤ w → (100 ≤ c * 100 / w) ↔ (w ≤ c)
hundredfold c w h =
    let law = le-div_iff_mul-le {k = w} {x = 100} {y = c * 100} h in
    (λ e. omega (arith, law.0 e), λ e. law.1 (omega arith))

-- In a season of at least one week the ring is never more than full, and full exactly if the user
-- has as many check-ins as the season has weeks.
pub leaderboard_ring_fill_bounds :
    (checkins weeks : ℕ)
    → 1 ≤ weeks
    → (leaderboard_ring_fill checkins weeks ≤ 100)
      × ((leaderboard_ring_fill checkins weeks ≡ 100) ↔ (weeks ≤ checkins))
unfolding leaderboard_ring_fill
leaderboard_ring_fill_bounds c w h = (
  ground arith,
  (λ e. (hundredfold c w h).0 (ground (arith, e)), λ e. ground (arith, (hundredfold c w h).1 e)),
)
