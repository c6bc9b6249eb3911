-- ===== src/Leaderboard/Streak/Runs.antt =====
-- Runs of weeks in a row, and what one more week does to them.
use mesh_monday.Base.{
  ℕ, zero, suc, ◌+◌, ◌-◌, ◌*◌, ◌≤◌, ◌<◌, ◌≡◌, refl, sym, ◌∙◌, ◌⊎◌, inl, inr, Bool, true, false,
  ◌||◌, arith, Bool-cases, ltb, ◌==◌,
}
use mesh_monday.Leaderboard.Streak.{week_seconds}

-- The weeks `seen` has from `start` on, `n` of them in a row.
abbrev pub IsRun : (ℕ → Bool) → ℕ → ℕ → Type 0
IsRun seen start n = (k : ℕ) → k < n → seen (start + k * week_seconds) ≡ true

-- A run of `n` weeks from `start`, and no run has more.
abbrev pub IsLongest : (ℕ → Bool) → ℕ → ℕ → Type 0
IsLongest seen start n = IsRun seen start n × ((from m : ℕ) → IsRun seen from m → m ≤ n)

pub IsLongest-same :
    (p q : ℕ → Bool)
    → ((u : ℕ) → p u ≡ q u)
    → (start n : ℕ) → IsLongest p start n
    → IsLongest q start n
IsLongest-same p q e start n (run, most) = (
  λ k lt. sym (e (start + k * week_seconds)) ∙ run k lt,
  λ from m r. most from m (λ k lt. e (from + k * week_seconds) ∙ r k lt),
)

-- One more week.
abbrev pub and_week : (ℕ → Bool) → ℕ → ℕ → Bool
and_week seen x u = seen u || (x == u)

pub IsRun-and_week :
    (seen : ℕ → Bool) (x start n : ℕ) → IsRun seen start n → IsRun (and_week seen x) start n
IsRun-and_week seen x start n run k lt = rw (run k lt) refl

-- The run that ends at the new week is one week longer.
pub IsRun-suc :
    (seen : ℕ → Bool) (x start n : ℕ)
    → IsRun seen start n
    → start + n * week_seconds ≡ x
    → IsRun (and_week seen x) start (n + 1)
IsRun-suc seen x start n run e k lt = elim (Bool-cases (ltb k n)) [
  | inl f ↦ IsRun-and_week seen x start n run k (ground arith)
  | inr f ↦ let last : k ≡ n = ground arith in ground (arith, last, e)
]

and_week-seen : (seen : ℕ → Bool) (x u : ℕ) → and_week seen x u ≡ true → u < x → seen u ≡ true
and_week-seen seen x u e lt = ground arith

-- A run with the new week in it ends there.
IsRun-split :
    (seen : ℕ → Bool) (x from m : ℕ)
    → ((u : ℕ) → seen u ≡ true → u < x)
    → IsRun (and_week seen x) from m
    → (IsRun seen from m)
      ⊎ ((n : ℕ) × (m ≡ n + 1) × (from + n * week_seconds ≡ x) × (IsRun seen from n))
IsRun-split seen x from zero below run = inl (λ k lt. absurd (omega arith))
IsRun-split seen x from (suc n) below run = elim (Bool-cases (x == from + n * week_seconds)) [
  | inl e ↦ inr (
    n,
    omega arith,
    ground arith,
    λ k lt. and_week-seen seen x (from + k * week_seconds) (run k (omega arith)) (ground arith),
  )
  | inr e ↦
      let last : seen (from + n * week_seconds) ≡ true = ground (arith, run n (omega arith)) in
      let lt_x = below (from + n * week_seconds) last in
      inl (λ k lt.
        and_week-seen seen x (from + k * week_seconds) (run k (omega arith)) (omega (arith, lt_x)))
]

-- Once the new week is seen, a run is one from before or no longer than the current one.
pub IsRun-bound :
    (seen : ℕ → Bool) (x start current best : ℕ)
    → ((u : ℕ) → seen u ≡ true → u < x)
    → ((u : ℕ) → u + week_seconds ≡ start → seen u ≡ false)
    → start + current * week_seconds ≡ x + week_seconds
    → 1 ≤ current
    → ((from m : ℕ) → IsRun seen from m → m ≤ best)
    → (from m : ℕ) → IsRun (and_week seen x) from m
    → (m ≤ best) ⊎ (m ≤ current)
IsRun-bound seen x start current best below starts reaches some_week most from m run =
    elim (IsRun-split seen x from m below run) [
      | inl r ↦ inl (most from m r)
      | inr (n, e, ends, r) ↦ elim (Bool-cases (ltb n current)) [
        | inl f ↦ inr (ground (arith, e))
        | inr f ↦
            let inside = r (n - current) (ground arith) in
            let outside =
              starts (from + (n - current) * week_seconds) (ground (arith, ends, reaches)) in
            cc (inside, outside)
      ]
    ]
