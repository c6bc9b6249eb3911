-- ===== src/Storage/Migrate/Upgrade.antt =====
-- What `Migrate` makes of a store of an older version.
use mesh_monday.Base.{
  ℕ, ◌≡◌, refl, inl, inr, ◌⊎◌, Option-cases, true, [], keep, has_key, Result, ok, err, Bytes, All,
}
use mesh_monday.Storage.Schema.{
  Checkin, Db, IsConsistent, week_user, link_key, same_week_user, same_week_user_iff,
}
use mesh_monday.Storage.Exec.{SqlError, World, Exec, ◌>>◌, continue, exec, next_fault}
use mesh_monday.Storage.Statements.{Outcome}
use mesh_monday.Storage.Keeps.{Keeps, exec-Keeps}
use mesh_monday.Storage.Migrate.{
  is_canonical, delete_repeated_checkins, create_week_user_index, link_of, backfill_links, migrate,
}
use mesh_monday.Storage.Migrate.Canonical.{has_key-canonical}
use mesh_monday.Storage.Migrate.Backfill.{
  IsOlder, delete_repeated_checkins-IsConsistent, create_week_user_index_passes, has_link, Links,
  backfill_links-Links,
}

pub next-Keeps :
    {A B : Type 0} (P : Db → Type 0) (k : Exec B)
    → Keeps P k
    → (r : Result SqlError A) (w : World) → P w.db
    → P (continue r (λ _. k) w).1.db
next-Keeps P k keep (ok a) w h = keep w h
next-Keeps P k keep (err e) w h = h

index-IsConsistent : (db : Db) → IsConsistent db → IsConsistent (create_week_user_index db).1
index-IsConsistent db v = rw (create_week_user_index_passes db v) v

backfill_links-IsConsistent : (db : Db) → IsConsistent db → IsConsistent (backfill_links db).1
backfill_links-IsConsistent db v = linked (backfill_links db) (backfill_links-Links db v)
  where
    linked : (x : Outcome (Unit {0})) → Links db.checkins db x → IsConsistent x.1
    linked (err e, b) h = absurd h
    linked (ok u, b) (far, (v, h)) = v

rest-Keeps : Keeps IsConsistent (exec create_week_user_index >> exec backfill_links)
rest-Keeps w h =
    next-Keeps IsConsistent (exec backfill_links)
      (exec-Keeps IsConsistent backfill_links backfill_links-IsConsistent)
      (exec create_week_user_index w).0 _
      (exec-Keeps IsConsistent create_week_user_index index-IsConsistent w h)

abbrev after : World → World
after w = record w { faults = (next_fault w.faults).1; db = (delete_repeated_checkins w.db).1 }

-- Whichever statement of the migration fails, a store in which all constraints hold but that of one
-- check-in per user and week is left as it was or satisfies them all.
pub migrate-IsConsistent :
    (w : World) → IsOlder w.db → ((migrate w).1.db ≡ w.db) ⊎ IsConsistent (migrate w).1.db
unfolding migrate exec delete_repeated_checkins
migrate-IsConsistent w v = elim (Option-cases (next_fault w.faults).0) [
  | inr (f, e) ↦ rw e (inl refl)
  | inl e ↦ rw e (inr (rest-Keeps (after w) (delete_repeated_checkins-IsConsistent w.db v)))
]

exec_quiet :
    {A : Type 0} (statement : Db → Outcome A) (w : World)
    → w.faults ≡ []
    → exec statement w ≡ ((statement w.db).0, record w { db = (statement w.db).1 })
unfolding exec
exec_quiet statement w e = rw e refl

-- The migration succeeded, and left a consistent store, each check-in with its link, and a check-in for
-- each user and week that had one.
abbrev pub IsUpgraded : Db → Result SqlError (Unit {0}) × Db → Type 0
IsUpgraded db (err e, b) = ⊥
IsUpgraded db (ok u, b) =
    IsConsistent b
    × (All (λ (c : Checkin). has_link (link_key (link_of c)) b ≡ true) b.checkins
        × ((k : ℕ × Bytes)
            → has_key week_user same_week_user same_week_user_iff k b.checkins
              ≡ has_key week_user same_week_user same_week_user_iff k db.checkins))

backfill_links-IsUpgraded :
    (db : Db) → IsOlder db → IsUpgraded db (backfill_links (delete_repeated_checkins db).1)
unfolding delete_repeated_checkins
backfill_links-IsUpgraded db v =
    linked _ (backfill_links-Links _ (delete_repeated_checkins-IsConsistent db v))
  where
    linked :
        (x : Outcome (Unit {0}))
        → Links (keep (is_canonical db.checkins) db.checkins) (delete_repeated_checkins db).1 x
        → IsUpgraded db x
    linked (err e, b) h = h
    linked (ok u, b) (far, (v, h)) =
        (v, (rw far.same_checkins h, (λ k. rw far.same_checkins (has_key-canonical db.checkins k))))

-- If no statement fails, the migration of such a store succeeds: all constraints hold afterwards, every
-- check-in has its link, and a user has a check-in in a week exactly if they had one before.
pub migrate-IsUpgraded :
    (w : World) → IsOlder w.db → w.faults ≡ [] → IsUpgraded w.db ((migrate w).0, (migrate w).1.db)
unfolding migrate delete_repeated_checkins
migrate-IsUpgraded w v e =
    let db = (delete_repeated_checkins w.db).1 in
    rw
      (
        exec_quiet delete_repeated_checkins w e,
        exec_quiet create_week_user_index (record w { db = db }) e,
        create_week_user_index_passes db (delete_repeated_checkins-IsConsistent w.db v),
        exec_quiet backfill_links (record w { db = db }) e,
      )
      (backfill_links-IsUpgraded w.db v)
