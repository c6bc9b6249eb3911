-- ===== src/Storage/Snapshots/Atomic.antt =====
-- The transaction stores the whole board or changes nothing.
use mesh_monday.Base.{
  ℕ, ◌≡◌, refl, subst, ◌∙◌, List, [], ◌∷◌, ◌++◌, append_assoc, append-nil, Result, ok, err,
}
use mesh_monday.Leaderboard.Compute.{LeaderboardEntry}
use mesh_monday.Storage.Schema.{Db, Snapshot}
use mesh_monday.Storage.Exec.{SqlError, World, Exec, ◌>>◌, continue, exec}
use mesh_monday.Storage.Statements.{Outcome}
use mesh_monday.Storage.Retry.Once.{Ran, exec-Ran}
use mesh_monday.Storage.Snapshots.{
  no_change, delete_snapshots, insert_snapshot, most_checkins_row, longest_streak_row,
  insert_snapshots, or_rollback, replace_leaderboard_snapshots,
}

-- What holds of the store if the action succeeds.
abbrev Returns : {A : Type 0} → (Db → Type 0) → Result SqlError A × World → Type 0
Returns R (ok a, w) = R w.db
Returns R (err e, w) = Unit {0}

exec-Returns :
    {A : Type 0} (statement : Db → Outcome A) (R : Db → Type 0) (db : Db)
    → ((db' : Db) (a : A) → statement db ≡ (ok a, db') → R db')
    → (r : Result SqlError A × World) → Ran statement db r
    → Returns R r
exec-Returns statement R db h (ok a, w) ran = h w.db a ran
exec-Returns statement R db h (err e, w) ran = tt

next-Returns :
    (k : Exec (Unit {0})) (R S : Db → Type 0) (r : Result SqlError (Unit {0}) × World)
    → Returns R r
    → ((w : World) → R w.db → Returns S (k w))
    → Returns S (continue r.0 (λ _. k) r.1)
next-Returns k R S (ok a, w) h go = go w h
next-Returns k R S (err e, w) h go = tt

abbrev Adds : Db → List Snapshot → Db → Type 0
Adds db rows db' = db' ≡ record db { snapshots = db.snapshots ++ rows }

insert_snapshot-Returns :
    (s : Snapshot) (db : Db) (w : World)
    → w.db ≡ db
    → Returns (Adds db (s ∷ [])) (exec (insert_snapshot s) w)
unfolding insert_snapshot
insert_snapshot-Returns s db w e =
    exec-Returns (insert_snapshot s) (Adds db (s ∷ [])) db (λ db' a h. cc)
      (exec (insert_snapshot s) w) (rw (← e) (exec-Ran (insert_snapshot s) (λ db db' e h. cc) w))

-- The rows of a board, in the order in which they are inserted.
pub snapshot_rows : ℕ → List LeaderboardEntry → List Snapshot
snapshot_rows computed_at [] = []
snapshot_rows computed_at (e ∷ entries) =
    most_checkins_row computed_at e
    ∷ longest_streak_row computed_at e
    ∷ snapshot_rows computed_at entries

insert_snapshots-Returns :
    (t : ℕ) (entries : List LeaderboardEntry) (db : Db) (w : World)
    → w.db ≡ db
    → Returns (Adds db (snapshot_rows t entries)) (insert_snapshots t entries w)
unfolding insert_snapshots snapshot_rows
insert_snapshots-Returns t [] db w e = rw append-nil e
insert_snapshots-Returns t (x ∷ entries) db w e =
    let most = most_checkins_row t x in
    let longest = longest_streak_row t x in
    let db1 : Db = record db { snapshots = db.snapshots ++ most ∷ [] } in
    let db2 : Db = record db { snapshots = (db.snapshots ++ most ∷ []) ++ longest ∷ [] } in
    let rows = snapshot_rows t entries in
    let all = Adds db (most ∷ longest ∷ rows) in
    let regroup : ((db.snapshots ++ most ∷ []) ++ longest ∷ []) ++ rows
        ≡ db.snapshots ++ most ∷ longest ∷ rows =
      append_assoc (db.snapshots ++ most ∷ []) (longest ∷ []) rows
      ∙ append_assoc db.snapshots (most ∷ []) (longest ∷ rows) in
    next-Returns (exec (insert_snapshot longest) >> insert_snapshots t entries)
      (Adds db (most ∷ [])) all (exec (insert_snapshot most) w)
      (insert_snapshot-Returns most db w e)
      (λ w1 e1.
        next-Returns (insert_snapshots t entries) (Adds db1 (longest ∷ [])) all
          (exec (insert_snapshot longest) w1) (insert_snapshot-Returns longest db1 w1 e1)
          (λ w2 e2.
            subst
              (λ l.
                Returns (λ db'. db' ≡ record db { snapshots = l }) (insert_snapshots t entries w2))
              regroup (insert_snapshots-Returns t entries db2 w2 e2)))

-- The new board stands in place of the old one, or an error left the store as it was.
abbrev pub Replaces : List Snapshot → Db → Result SqlError (Unit {0}) × World → Type 0
Replaces rows db (ok u, w) = w.db ≡ record db { snapshots = rows }
Replaces rows db (err e, w) = w.db ≡ db

or_rollback-Replaces :
    (rows : List Snapshot) (db : Db) (r : Result SqlError (Unit {0}) × World)
    → Returns (λ db'. db' ≡ record db { snapshots = rows }) r
    → Replaces rows db (or_rollback db r)
unfolding or_rollback
or_rollback-Replaces rows db (ok u, w) h = h
or_rollback-Replaces rows db (err e, w) h = refl

no_change-Returns : (R : Db → Type 0) (w : World) → R w.db → Returns R (exec no_change w)
unfolding no_change
no_change-Returns R w h =
    exec-Returns no_change R w.db (λ db' a e. let same_db : db' ≡ w.db = cc in rw same_db h)
      (exec no_change w) (exec-Ran no_change (λ db db' e h. cc) w)

-- Whatever fails, the snapshots are afterwards two rows for each entry of the board, in its order,
-- with nothing else changed, or an error is returned and nothing is changed at all.
pub replace_leaderboard_snapshots-Replaces :
    (entries : List LeaderboardEntry) (computed_at : ℕ) (w : World)
    → Replaces
        (snapshot_rows computed_at entries)
        w.db
        (replace_leaderboard_snapshots entries computed_at w)
unfolding replace_leaderboard_snapshots delete_snapshots
replace_leaderboard_snapshots-Replaces entries t w =
    let rows = snapshot_rows t entries in
    let empty : Db = record w.db { snapshots = [] } in
    let begun : Db → Type 0 = λ db. db ≡ w.db in
    let stored : Db → Type 0 = λ db. db ≡ record w.db { snapshots = rows } in
    or_rollback-Replaces rows w.db _ (
      next-Returns ((exec delete_snapshots >> insert_snapshots t entries) >> exec no_change) begun
        stored (exec no_change w) (no_change-Returns begun w refl)
        (λ w1 e1.
          next-Returns (exec no_change) stored stored
            ((exec delete_snapshots >> insert_snapshots t entries) w1)
            (next-Returns (insert_snapshots t entries) (λ db. db ≡ empty) stored
              (exec delete_snapshots w1)
              (exec-Returns delete_snapshots (λ db. db ≡ empty) w.db (λ db' a h. cc)
                (exec delete_snapshots w1)
                (rw (← e1) (exec-Ran delete_snapshots (λ db db' e h. cc) w1)))
              (insert_snapshots-Returns t entries empty))
            (λ w2 e2. no_change-Returns stored w2 e2)))
