-- ===== src/Storage/Migrate/Opened.antt =====
-- `Migrate` on a store that has the constraints already, as every program does that opens it.
use mesh_monday.Base.{
  ◌≡◌, ◌≢◌, refl, sym, arith, inl, inr, Bool-cases, true, List, [], ◌∷◌, any_of, keep-All, All,
  All-map, All-both, Distinct, ok, err,
}
use mesh_monday.Storage.Schema.{
  Checkin, Db, IsConsistent, week_user, same_week_user, same_week_user_iff,
}
use mesh_monday.Storage.Exec.{◌>>◌, exec}
use mesh_monday.Storage.Statements.{Outcome}
use mesh_monday.Storage.Numbering.{IsNumbered, same_raw-IsNumbered}
use mesh_monday.Storage.Keeps.{Keeps, exec-Keeps}
use mesh_monday.Storage.Migrate.{
  is_canonical, delete_repeated_checkins, create_week_user_index, backfill_links, migrate,
}
use mesh_monday.Storage.Migrate.Backfill.{
  create_week_user_index_passes, Links, backfill_links-Links,
}
use mesh_monday.Storage.Migrate.Upgrade.{next-Keeps}

-- No row of the week and user of `c` is another one.
abbrev IsAlone : List Checkin → Checkin → Type 0
IsAlone rows c = All (λ (d : Checkin). week_user d ≡ week_user c → d.id ≡ c.id) rows

each-IsAlone : (rows : List Checkin) → Distinct week_user rows → All (IsAlone rows) rows
each-IsAlone [] h = tt
each-IsAlone (c ∷ rows) (hc, h) = (
  (
    λ _. refl,
    All-map {Q = λ d. week_user d ≡ week_user c → d.id ≡ c.id}
        (λ (d : Checkin) (ne : week_user c ≢ week_user d) (q : week_user d ≡ week_user c).
          absurd (ne (sym q)))
        rows hc,
  ),
  All-map {Q = IsAlone (c ∷ rows)} (λ d (ne, alone). (λ q. absurd (ne q), alone)) rows
      (All-both (λ d. week_user c ≢ week_user d) (IsAlone rows) rows hc (each-IsAlone rows h)),
)

alone-is_canonical :
    (rows : List Checkin) (c : Checkin) → IsAlone rows c → is_canonical rows c ≡ true
unfolding any_of is_canonical
alone-is_canonical [] c h = refl
alone-is_canonical (d ∷ rows) c (hd, h) =
    let rest = alone-is_canonical rows c h in
    elim (Bool-cases (same_week_user (week_user d) (week_user c))) [
      | inl e ↦
          let same_id = hd ((same_week_user_iff (week_user d) (week_user c)).0 e) in
          ground (arith, e, same_id, rest)
      | inr e ↦ ground (arith, e, rest)
    ]

nothing_repeated : (db : Db) → IsConsistent db → (delete_repeated_checkins db).1 ≡ db
unfolding delete_repeated_checkins
nothing_repeated db v =
    let alone = each-IsAlone db.checkins v.week_user_unique in
    let all = All-map (alone-is_canonical db.checkins) db.checkins alone in
    rw (keep-All (is_canonical db.checkins) db.checkins all) refl

-- A consistent and numbered store with the check-ins of `a`.
pub record HasCheckins (rows : List Checkin) (db : Db) : Type 0 where
  pub consistent : IsConsistent db
  pub numbered : IsNumbered db
  pub same_checkins : db.checkins ≡ rows

module _ (rows : List Checkin) where
  backfill_links-HasCheckins :
      (db : Db) → HasCheckins rows db → HasCheckins rows (backfill_links db).1
  backfill_links-HasCheckins db h =
      linked (backfill_links db) (backfill_links-Links db h.consistent)
    where
      linked : (x : Outcome (Unit {0})) → Links db.checkins db x → HasCheckins rows x.1
      linked (err e, b) k = absurd k
      linked (ok u, b) (far, (v, k)) = record {
        consistent = v;
        numbered = same_raw-IsNumbered db b far.packets far.next_id h.numbered;
        same_checkins = rw far.same_checkins h.same_checkins;
      }

  -- Opening a store keeps its check-ins, whatever fails.
  pub migrate-HasCheckins : Keeps (HasCheckins rows) migrate
  unfolding migrate
  migrate-HasCheckins w h =
      let links = exec-Keeps (HasCheckins rows) backfill_links backfill_links-HasCheckins in
      let index =
        exec-Keeps (HasCheckins rows) create_week_user_index
          (λ db k. rw (create_week_user_index_passes db k.consistent) k) in
      let delete =
        exec-Keeps (HasCheckins rows) delete_repeated_checkins
          (λ db k. rw (nothing_repeated db k.consistent) k) in
      next-Keeps (HasCheckins rows) (exec create_week_user_index >> exec backfill_links)
        (λ w h. next-Keeps (HasCheckins rows) (exec backfill_links) links _ _ (index w h)) _ _
        (delete w h)
