-- ===== src/Commands/Seed/Kept.antt =====
-- Seeding keeps what the inserts keep.
use mesh_monday.Base.{ℕ, ◌+◌, List, [], ◌∷◌, Bytes}
use mesh_monday.Platform.{Platform}
use mesh_monday.Config.{Config}
use mesh_monday.Go.Time.{Time}
use mesh_monday.Storage.Schema.{Db}
use mesh_monday.Storage.Exec.{World}
use mesh_monday.Storage.Keeps.{IsInvariant, insert_raw_packet-Keeps, insert_checkin-Keeps}
use mesh_monday.Commands.Seed.{users, seed_user, seed_from, seed}

module _ (P : Db → Type 0) (v : IsInvariant P) (p : Platform) (c : Config) where
  seed_from-Keeps :
      (now : Time) (created_at : ℕ → ℕ) (i : ℕ) (names : List Bytes) (w : World)
      → P w.db
      → P (seed_from p c now created_at i names w).db
  unfolding seed_from seed_user
  seed_from-Keeps now created_at i [] w h = h
  seed_from-Keeps now created_at i (name ∷ names) w h =
      seed_from-Keeps now created_at (i + 1) names _
        (insert_checkin-Keeps P v _ _ (insert_raw_packet-Keeps P v _ w h))

  pub seed-Keeps :
      (now : Time) (created_at : ℕ → ℕ) (w : World) → P w.db → P (seed p c now created_at w).db
  unfolding seed
  seed-Keeps now created_at = seed_from-Keeps now created_at 0 users
