-- ===== src/Storage/Retry/Once.antt =====
-- However often it is tried, a statement takes effect once if it succeeds and not at all if it fails.
use mesh_monday.Base.{ℕ, zero, suc, ◌≡◌, refl, inl, inr, Option-cases, Bool-cases, Result, ok, err}
use mesh_monday.Platform.{Platform}
use mesh_monday.Storage.Schema.{Db}
use mesh_monday.Storage.Exec.{
  SqlError, World, Exec, exec, wait, next_wait, next_fault, is_sqlite_busy_error,
}
use mesh_monday.Storage.Statements.{Outcome}
use mesh_monday.Storage.Retry.{retry, after_wait}

-- The statement ran once on the store, or the store is as it was.
abbrev pub Ran : {A : Type 0} → (Db → Outcome A) → Db → Result SqlError A × World → Type 0
Ran statement db (ok a, w) = statement db ≡ (ok a, w.db)
Ran statement db (err e, w) = w.db ≡ db

-- A statement that fails changes nothing.
abbrev pub IsAtomic : {A : Type 0} → (Db → Outcome A) → Type 0
IsAtomic {A} statement = (db db' : Db) (e : SqlError) → statement db ≡ (err e, db') → db' ≡ db

module _ {A : Type 0} (statement : Db → Outcome A) (atomic : IsAtomic statement) where
  outcome-Ran :
      (db : Db) (w : World) (o : Outcome A)
      → statement db ≡ o
      → Ran statement db (o.0, record w { db = o.1 })
  outcome-Ran db w (ok a, db') e = e
  outcome-Ran db w (err f, db') e = atomic db db' f e

  pub exec-Ran : (w : World) → Ran statement w.db (exec statement w)
  unfolding exec
  exec-Ran w = elim (Option-cases (next_fault w.faults).0) [
    | inl e ↦
        rw e
          (outcome-Ran w.db (record w { faults = (next_fault w.faults).1 }) (statement w.db) refl)
    | inr (f, e) ↦ rw e refl
  ]

  try_again :
      (p : Platform) (db : Db) (again : Exec A)
      → ((w : World) → w.db ≡ db → Ran statement db (again w))
      → (w : World) → w.db ≡ db
      → Ran statement db (after_wait (wait w) again)
  unfolding after_wait wait
  try_again p db again ran w e = elim (Bool-cases (next_wait w.waits).0) [
    | inl f ↦ rw f e
    | inr f ↦ rw f (ran _ e)
  ]

  retry_step :
      (p : Platform) (db : Db) (n : ℕ)
      → ((w : World) → w.db ≡ db → Ran statement db (retry p n (exec statement) w))
      → (r : Result SqlError A) (w : World) → (exec statement w).0 ≡ r
      → Ran statement db (r, (exec statement w).1)
      → Ran statement db (retry p (suc n) (exec statement) w)
  unfolding retry
  retry_step p db n ran (ok a) w e h = rw (e, retry) h
  retry_step p db n ran (err f) w e h = elim (Bool-cases (is_sqlite_busy_error p f)) [
    | inl busy ↦
        rw (e, retry, busy) (try_again p db (retry p n (exec statement)) ran (exec statement w).1 h)
    | inr other ↦ rw (e, retry, other) h
  ]

  pub retry-Ran :
      (p : Platform) (db : Db) (n : ℕ) (w : World)
      → w.db ≡ db
      → Ran statement db (retry p n (exec statement) w)
  unfolding retry
  retry-Ran p db zero w e = rw (← e) (exec-Ran w)
  retry-Ran p db (suc n) w e =
      retry_step p db n (retry-Ran p db n) (exec statement w).0 w refl (rw (← e) (exec-Ran w))
