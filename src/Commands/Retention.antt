-- ===== src/Commands/Retention.antt =====
-- cmd/server/main.go: `runRetentionLoop`, the part of the server that prunes from time to time.
pub mod Rounds
use mesh_monday.Base.{
  ℕ, zero, suc, ◌+◌, ◌*◌, ◌%◌, Bool, true, false, not, ◌&&◌, ◌||◌, List, [], ◌∷◌, Option, none,
  some, ltb, leb, ◌==◌, Result, ok, err,
}
use mesh_monday.Base.Int.{ℤ, pos, negsuc, ltb_ℤ}
use mesh_monday.Platform.{Platform}
use mesh_monday.Config.{Config}
use mesh_monday.Go.Time.{Time}
use mesh_monday.Storage.Exec.{SqlError, World, wait}
use mesh_monday.Storage.Retention.{Deletion, deleted, prune_raw_packets}
use mesh_monday.Storage.Space.{Disk, SpaceStats, Stats, after_prune_maintenance}

abbrev pub vacuum_hint_threshold : ℕ
vacuum_hint_threshold = 10000

-- The seconds before the first round, from the clock's nanoseconds.
abbrev pub jitter : ℕ → ℕ
jitter nanoseconds = 5 + nanoseconds % 21

-- What a round logs: an error, that there was nothing to delete, or the rows deleted with the
-- statistics, or the error of reading them, and whether VACUUM is hinted at.
pub data Report : Type 0 where
  prune_failed : SqlError → Report
  nothing_deleted : Report
  pruned : ℕ → Result SqlError SpaceStats → Bool → Report

-- The weeks as `PruneRawPackets` takes them; `Validate` refuses a negative number.
abbrev pub weeks_of : ℤ → ℕ
weeks_of (pos n) = n
weeks_of (negsuc n) = 0

-- `50*1024*1024`
abbrev pub hint_bytes : ℕ
hint_bytes = 52428800

-- The hint is about rows, or about the bytes that are free.
pub report_of : ℕ → SpaceStats × Option SqlError → Report
report_of n (st, none) =
    pruned n (ok st) (leb vacuum_hint_threshold n || ltb_ℤ (pos hint_bytes) st.freelist_bytes)
report_of n (st, some e) = pruned n (err e) (leb vacuum_hint_threshold n)

abbrev pub Round : Type 0
Round = Option Report × World

after_maintenance : ℕ → Stats → Round
unfolding report_of
after_maintenance n (stats, w) = (some (report_of n stats), w)

after_prune : Disk → Option Deletion × World → Round
unfolding after_maintenance
after_prune d (none, w) = (none, w)
after_prune d (some (deleted n (some e)), w) = (some (prune_failed e), w)
after_prune d (some (deleted zero none), w) = (some nothing_deleted, w)
after_prune d (some (deleted (suc n) none), w) =
    after_maintenance (suc n) (after_prune_maintenance d w)

-- `runOnce`; `none` where the fuel of the pruning ran out.
pub run_once : Platform → Config → Time → Disk → World → Round
unfolding after_prune
run_once p c now d w =
    after_prune d (prune_raw_packets p now c.tz (weeks_of c.raw_monday_retain_weeks) w)

-- When a round begins, and the sizes then.
pub record Tick : Type 0 where
  pub at : Time
  pub disk : Disk

-- The reports, in their order.
abbrev pub Rounds : Type 0
Rounds = List (Option Report) × World

report_then : Round → (World → Rounds) → Rounds
report_then (r, w) next = let (rs, w') = next w in (r ∷ rs, w')

-- The loop ends when the context does.
stop_or : Result SqlError Bool × World → (World → Rounds) → Rounds
stop_or (err e, w) next = ([], w)
stop_or (ok true, w) next = ([], w)
stop_or (ok false, w) next = next w

-- `runRetentionLoop`, for as many rounds as there are ticks. Each round waits first, for the jitter or for
-- the ticker.
pub run_retention_loop : Platform → Config → List Tick → World → Rounds
unfolding report_then stop_or
run_retention_loop p c [] w = ([], w)
run_retention_loop p c (t ∷ ticks) w =
    stop_or (wait w)
      (λ w'. report_then (run_once p c t.at t.disk w') (run_retention_loop p c ticks))
