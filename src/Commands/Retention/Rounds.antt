-- ===== src/Commands/Retention/Rounds.antt =====
-- What the rounds of the retention loop report, under every schedule of faults and waits.
use mesh_monday.Base.{
  ℕ, zero, suc, ◌+◌, ◌≡◌, refl, arith, inl, inr, Bool-cases, List, [], ◌∷◌, Option, none, some,
  length, All,
}
use mesh_monday.Platform.{Platform}
use mesh_monday.Config.{Config}
use mesh_monday.Go.Time.{Time}
use mesh_monday.Storage.Schema.{Db}
use mesh_monday.Storage.Exec.{World, wait, next_wait}
use mesh_monday.Storage.Numbering.{IsNumbered}
use mesh_monday.Storage.Retention.{Deletion, deleted, prune_raw_packets}
use mesh_monday.Storage.Retention.Effects.{
  prune_raw_packets_ends, prune_raw_packets-Spares, prune_raw_packets-keep,
}
use mesh_monday.Storage.Space.{Disk, Stats, after_prune_maintenance}
use mesh_monday.Storage.Space.Quiet.{after_prune_maintenance_keeps}
use mesh_monday.Commands.Retention.{
  Report, prune_failed, nothing_deleted, pruned, weeks_of, report_of, Round, after_maintenance,
  after_prune, run_once, Tick, Rounds, report_then, stop_or, run_retention_loop,
}

-- The round did all that it set out to do.
abbrev pub HasPruned : Option Report → Type 0
HasPruned none = ⊥
HasPruned (some (prune_failed e)) = ⊥
HasPruned (some nothing_deleted) = Unit
HasPruned (some (pruned n stats hint)) = Unit

-- The rows that a report counts.
abbrev pub rows_of : Option Report → ℕ
rows_of (some (pruned n stats hint)) = n
rows_of _ = 0

abbrev pub total_rows : List (Option Report) → ℕ
total_rows [] = 0
total_rows (r ∷ rs) = rows_of r + total_rows rs

abbrev pub IsReport : Option Report → Type 0
IsReport none = ⊥
IsReport (some r) = Unit

-- What a round that begins with `before` packets has done.
pub record IsCounted (before : ℕ) (x : Round) : Type 0 where
  pub numbered : IsNumbered x.1.db
  pub reported : IsReport x.0
  pub counted : HasPruned x.0 → rows_of x.0 + length x.1.db.raw_packets ≡ before

-- What a pruning that begins with `before` packets has done.
record IsCut (before : ℕ) (x : Option Deletion × World) : Type 0 where
  numbered : IsNumbered x.1.db
  ended : (d : Deletion) × (x.0 ≡ some d)
  counted : (n : ℕ) → x.0 ≡ some (deleted n none) → n + length x.1.db.raw_packets ≡ before

after_maintenance-IsCounted :
    (before n : ℕ) (x : Stats)
    → IsNumbered x.1.db × (n + length x.1.db.raw_packets ≡ before)
    → IsCounted before (after_maintenance n x)
unfolding after_maintenance report_of
after_maintenance-IsCounted before n ((st, none), w) (v, e) = record {
  numbered = v;
  reported = tt;
  counted = λ _. e;
}
after_maintenance-IsCounted before n ((st, some f), w) (v, e) = record {
  numbered = v;
  reported = tt;
  counted = λ _. e;
}

after_prune-IsCounted :
    (before : ℕ) (d : Disk) (x : Option Deletion × World)
    → IsCut before x
    → IsCounted before (after_prune d x)
unfolding after_prune
after_prune-IsCounted before d (none, w) h = let (k, e) = h.ended in cc
after_prune-IsCounted before d (some (deleted n (some e)), w) h = record {
  numbered = h.numbered;
  reported = tt;
  counted = λ f. absurd f;
}
after_prune-IsCounted before d (some (deleted zero none), w) h = record {
  numbered = h.numbered;
  reported = tt;
  counted = λ _. h.counted 0 refl;
}
after_prune-IsCounted before d (some (deleted (suc n) none), w) h =
    after_maintenance-IsCounted before (suc n) (after_prune_maintenance d w) (
      after_prune_maintenance_keeps (λ db. IsNumbered db × (suc n + length db.raw_packets ≡ before))
        d w (h.numbered, h.counted (suc n) refl))

module _ (P : Db → Type 0) where
  after_maintenance_keeps : (n : ℕ) (x : Stats) → P x.1.db → P (after_maintenance n x).1.db
  unfolding after_maintenance
  after_maintenance_keeps n (stats, w) h = h

  after_prune_keeps : (d : Disk) (x : Option Deletion × World) → P x.1.db → P (after_prune d x).1.db
  unfolding after_prune
  after_prune_keeps d (none, w) h = h
  after_prune_keeps d (some (deleted n (some e)), w) h = h
  after_prune_keeps d (some (deleted zero none), w) h = h
  after_prune_keeps d (some (deleted (suc n) none), w) h =
      after_maintenance_keeps (suc n) (after_prune_maintenance d w)
        (after_prune_maintenance_keeps P d w h)

  -- A round keeps what its pruning keeps.
  pub run_once_keeps :
      (p : Platform) (c : Config) (t : Tick) (w : World)
      → P (prune_raw_packets p t.at c.tz (weeks_of c.raw_monday_retain_weeks) w).1.db
      → P (run_once p c t.at t.disk w).1.db
  unfolding run_once
  run_once_keeps p c t w = after_prune_keeps t.disk _

module _ (p : Platform) (c : Config) where
  prune-IsCut :
      (now : Time) (n : ℕ) (w : World)
      → IsNumbered w.db
      → IsCut (length w.db.raw_packets) (prune_raw_packets p now c.tz n w)
  prune-IsCut now n w v = record {
    numbered = (prune_raw_packets-Spares p now c.tz n w v).1;
    ended = prune_raw_packets_ends p now c.tz n w v;
    counted = λ k e. let (raw, count) = prune_raw_packets-keep p now c.tz n w v k e in rw raw count;
  }

  pub run_once-IsCounted :
      (t : Tick) (w : World)
      → IsNumbered w.db
      → IsCounted (length w.db.raw_packets) (run_once p c t.at t.disk w)
  unfolding run_once
  run_once-IsCounted t w v =
      after_prune-IsCounted _ t.disk _ (prune-IsCut t.at (weeks_of c.raw_monday_retain_weeks) w v)

  -- What the loop has done that began with `before` packets.
  pub record AreCounted (before : ℕ) (x : Rounds) : Type 0 where
    pub reported : All IsReport x.0
    pub counted : All HasPruned x.0 → total_rows x.0 + length x.1.db.raw_packets ≡ before

  no_rounds : (w : World) → AreCounted (length w.db.raw_packets) ([], w)
  no_rounds w = record { reported = tt; counted = λ _. omega arith }

  report_then-AreCounted :
      (before : ℕ) (x : Round) (next : World → Rounds)
      → IsCounted before x
      → ((w : World) → IsNumbered w.db → AreCounted (length w.db.raw_packets) (next w))
      → AreCounted before (report_then x next)
  unfolding report_then
  report_then-AreCounted before (r, w) next h go =
      let rest = go w h.numbered in
      record {
        reported = (h.reported, rest.reported);
        counted = λ (done, more). omega (arith, h.counted done, rest.counted more);
      }

  -- If the packets are numbered as the store numbers them, every round of the retention loop comes to
  -- an end with a report, whatever fails; and if no round reports an error, the rows that the
  -- reports count are together the packets that are gone.
  pub run_retention_loop-AreCounted :
      (ticks : List Tick) (w : World)
      → IsNumbered w.db
      → AreCounted (length w.db.raw_packets) (run_retention_loop p c ticks w)
  unfolding run_retention_loop stop_or wait
  run_retention_loop-AreCounted [] w v = no_rounds w
  run_retention_loop-AreCounted (t ∷ ticks) w v = elim (Bool-cases (next_wait w.waits).0) [
    | inl e ↦ rw e (no_rounds _)
    | inr e ↦ rw e (
        report_then-AreCounted _ _ (run_retention_loop p c ticks) (run_once-IsCounted t _ v)
          (run_retention_loop-AreCounted ticks))
  ]
