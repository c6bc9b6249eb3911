-- ===== src/Storage/Retry/Bounds.antt =====
-- How often a write is tried, and when it succeeds.
use mesh_monday.Base.{
  ℕ, zero, suc, ◌≤◌, ◌≡◌, ap, ◌∙◌, true, inl, inr, List, [], ◌∷◌, ◌++◌, Option, none, some, arith,
  Bool-cases, Result-cases, Result, ok, replicate,
}
use mesh_monday.Platform.{Platform}
use mesh_monday.Storage.Schema.{Db}
use mesh_monday.Storage.Exec.{SqlError, World, Exec, exec, wait, next_wait, is_sqlite_busy_error}
use mesh_monday.Storage.Statements.{Outcome}
use mesh_monday.Storage.Keeps.{Keeps}
use mesh_monday.Storage.Retry.{retry, after_wait}

after_wait-Keeps :
    {A : Type 0} (P : Db → Type 0) (again : Exec A)
    → Keeps P again
    → (w : World) → P w.db
    → P (after_wait (wait w) again).1.db
unfolding after_wait wait
after_wait-Keeps P again keep w h = elim (Bool-cases (next_wait w.waits).0) [
  | inl e ↦ rw e h
  | inr e ↦ rw e (keep _ h)
]

-- Retrying keeps what one call keeps.
pub retry-Keeps :
    {A : Type 0} (p : Platform) (P : Db → Type 0) (n : ℕ) (fn : Exec A)
    → Keeps P fn
    → Keeps P (retry p n fn)
unfolding retry
retry-Keeps p P zero fn keep w h = keep w h
retry-Keeps p P (suc n) fn keep w h = elim (Result-cases (fn w).0) [
  | inl (a, e) ↦ rw (e, retry) (keep w h)
  | inr (e, failed) ↦ elim (Bool-cases (is_sqlite_busy_error p e)) [
    | inl busy ↦
        rw (failed, retry, busy)
          (after_wait-Keeps P (retry p n fn) (retry-Keeps p P n fn keep) (fn w).1 (keep w h))
    | inr other ↦ rw (failed, retry, other) (keep w h)
  ]
]

-- Retrying ensures what one call ensures: of the store, and of the value that it returns.
abbrev pub Ensures : {A : Type 0} → (Db → Type 0) → (A → Type 0) → Exec A → Type 0
Ensures {A} P Q fn = (w : World) → P w.db → P (fn w).1.db × ((a : A) → (fn w).0 ≡ ok a → Q a)

after_wait-Ensures :
    {A : Type 0} (P : Db → Type 0) (Q : A → Type 0) (again : Exec A)
    → Ensures P Q again
    → (w : World) → P w.db
    → P (after_wait (wait w) again).1.db × ((a : A) → (after_wait (wait w) again).0 ≡ ok a → Q a)
unfolding after_wait wait
after_wait-Ensures P Q again sure w h = elim (Bool-cases (next_wait w.waits).0) [
  | inl e ↦ rw e (h, λ a r. cc)
  | inr e ↦ rw e (sure _ h)
]

pub retry-Ensures :
    {A : Type 0} (p : Platform) (P : Db → Type 0) (Q : A → Type 0) (n : ℕ) (fn : Exec A)
    → Ensures P Q fn
    → Ensures P Q (retry p n fn)
unfolding retry
retry-Ensures p P Q zero fn sure w h = sure w h
retry-Ensures p P Q (suc n) fn sure w h = elim (Result-cases (fn w).0) [
  | inl (a, e) ↦ rw (e, retry) ((sure w h).0, λ b r. (sure w h).1 b (e ∙ r))
  | inr (e, failed) ↦ elim (Bool-cases (is_sqlite_busy_error p e)) [
    | inl busy ↦
        rw (failed, retry, busy)
          (after_wait-Ensures P Q (retry p n fn) (retry-Ensures p P Q n fn sure) (fn w).1
            (sure w h).0)
    | inr other ↦ rw (failed, retry, other) ((sure w h).0, λ b r. cc)
  ]
]

retry_ok :
    {A : Type 0} (p : Platform) (n : ℕ) (fn : Exec A) (w w' : World) (a : A)
    → fn w ≡ (ok a, w')
    → retry p n fn w ≡ (ok a, w')
unfolding retry
retry_ok p zero fn w w' a e = e
retry_ok {A} p (suc n) fn w w' a e =
    rw (e, retry) (ap (λ (x : Result SqlError A × World). (ok a, x.1)) e)

-- If a database is busy for at most as many calls as there are retries, while the context lives,
-- and the statement succeeds on it, the write does not fail: the statement runs once, and its
-- result is returned.
pub retry_busy :
    {A : Type 0} (p : Platform) (e : SqlError) (statement : Db → Outcome A) (n k : ℕ)
    → is_sqlite_busy_error p e ≡ true
    → k ≤ n
    → (db : Db) (rest : List (Option SqlError)) (a : A) (db' : Db) → statement db ≡ (ok a, db')
    → retry p n
        (exec statement)
        (record { db = db; faults = replicate k (some e) ++ (none ∷ rest); waits = [] })
      ≡ (ok a, record { db = db'; faults = rest; waits = [] })
unfolding retry after_wait wait exec
retry_busy p e statement n zero busy le db rest a db' ran =
    retry_ok p n (exec statement) _ _ a (unfold exec in rw ran)
retry_busy p e statement zero (suc k) busy le db rest a db' ran = absurd (omega arith)
retry_busy p e statement (suc n) (suc k) busy le db rest a db' ran =
    rw busy (retry_busy p e statement n k busy (omega arith) db rest a db' ran)
