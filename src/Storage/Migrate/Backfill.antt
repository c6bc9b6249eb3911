-- ===== src/Storage/Migrate/Backfill.antt =====
-- The migration as a whole.
use mesh_monday.Base.{
  ℕ, ◌≡◌, ◌≢◌, refl, sym, ap, ◌∙◌, inl, inr, arith, Bool, true, false, List, [], ◌∷◌, ◌++◌,
  Bool-cases, any_of, any_of-append, has_key, same, same_iff, ok, err, Bytes, All, All-map,
  All-keep, Distinct, Distinct-keep,
}
use mesh_monday.Storage.Schema.{
  Checkin, Observation, CheckinPacket, Db, IsConsistent, raw_hash, checkin_hash, week_user,
  observation_key, link_key, same_week_user, same_week_user_iff, same_link, same_link_iff, has_raw,
}
use mesh_monday.Storage.Statements.{Outcome, insert_link_row}
use mesh_monday.Storage.Consistency.{insert_link_row-IsConsistent}
use mesh_monday.Storage.Migrate.{
  is_canonical, delete_repeated_checkins, has_repeat, create_week_user_index, link_of, after_link,
  link_checkins, undo, backfill_links,
}
use mesh_monday.Storage.Migrate.Canonical.{checkin_id, keep-Distinct}

-- A store of an older version: each constraint holds but that of one check-in per user and week.
pub record IsOlder (db : Db) : Type 0 where
  pub ids : Distinct checkin_id db.checkins
  pub raw_unique : Distinct raw_hash db.raw_packets
  pub checkin_unique : Distinct checkin_hash db.checkins
  pub observation_unique : Distinct observation_key db.observations
  pub link_unique : Distinct link_key db.checkin_packets
  pub checkin_parent : All (λ c. has_raw (checkin_hash c) db ≡ true) db.checkins
  pub observation_parent :
      All (λ (o : Observation). has_raw o.packet_hash db ≡ true) db.observations
  pub link_parent : All (λ (l : CheckinPacket). has_raw l.packet_hash db ≡ true) db.checkin_packets

pub delete_repeated_checkins-IsConsistent :
    (db : Db) → IsOlder db → IsConsistent (delete_repeated_checkins db).1
unfolding delete_repeated_checkins
delete_repeated_checkins-IsConsistent db v =
    let canonical = is_canonical db.checkins in
    record {
      raw_unique = v.raw_unique;
      checkin_unique = Distinct-keep checkin_hash canonical db.checkins v.checkin_unique;
      week_user_unique = keep-Distinct db.checkins v.ids;
      observation_unique = v.observation_unique;
      link_unique = v.link_unique;
      checkin_parent =
          All-keep (λ c. has_raw (checkin_hash c) db ≡ true) canonical db.checkins v.checkin_parent;
      observation_parent = v.observation_parent;
      link_parent = v.link_parent;
    }

none_same :
    (c : Checkin) (rows : List Checkin)
    → All (λ d. week_user c ≢ week_user d) rows
    → has_key week_user same_week_user same_week_user_iff (week_user c) rows ≡ false
unfolding any_of
none_same c [] h = refl
none_same c (d ∷ rows) (ne, h) =
    let apart : week_user d ≢ week_user c = λ q. ne (sym q) in
    let equal = (same_week_user_iff (week_user d) (week_user c)).0 in
    elim (Bool-cases (same_week_user (week_user d) (week_user c))) [
      | inl e ↦ absurd (apart (equal e))
      | inr e ↦ rw (any_of, e) (none_same c rows h)
    ]

no_repeat : (rows : List Checkin) → Distinct week_user rows → has_repeat rows ≡ false
unfolding has_repeat
no_repeat [] h = refl
no_repeat (c ∷ rows) (hc, h) = ground (arith, no_repeat rows h, none_same c rows hc)

pub create_week_user_index_passes :
    (db : Db) → IsConsistent db → create_week_user_index db ≡ (ok tt, db)
unfolding create_week_user_index
create_week_user_index_passes db v = rw (no_repeat db.checkins v.week_user_unique) refl

abbrev pub has_link : ℕ × Bytes × Bytes → Db → Bool
has_link k db = has_key link_key same_link same_link_iff k db.checkin_packets

-- `b` has the packets and check-ins of `a` and all of its links.
pub record IsFurther (a b : Db) : Type 0 where
  pub packets : b.raw_packets ≡ a.raw_packets
  pub next_id : b.next_raw ≡ a.next_raw
  pub same_checkins : b.checkins ≡ a.checkins
  pub links : (k : ℕ × Bytes × Bytes) → has_link k a ≡ true → has_link k b ≡ true

IsFurther-trans : (a b c : Db) → IsFurther a b → IsFurther b c → IsFurther a c
IsFurther-trans a b c h k = record {
  packets = k.packets ∙ h.packets;
  next_id = k.next_id ∙ h.next_id;
  same_checkins = k.same_checkins ∙ h.same_checkins;
  links = λ l e. k.links l (h.links l e);
}

-- A statement that succeeds, and leaves a consistent store with the links of these rows besides.
abbrev pub Links : {A : Type 0} → List Checkin → Db → Outcome A → Type 0
Links rows db (err e, b) = ⊥
Links rows db (ok u, b) =
    IsFurther db b
    × (IsConsistent b × All (λ (c : Checkin). has_link (link_key (link_of c)) b ≡ true) rows)

has_link-snoc :
    (ls : List CheckinPacket) (l : CheckinPacket)
    → has_key link_key same_link same_link_iff (link_key l) (ls ++ l ∷ []) ≡ true
unfolding any_of
has_link-snoc ls l =
    rw any_of-append (ground (arith, (same_link_iff (link_key l) (link_key l)).1 refl))

insert_link_row-Links :
    (c : Checkin) (db : Db)
    → IsConsistent db
    → has_raw c.packet_hash db ≡ true
    → Links (c ∷ []) db (insert_link_row (link_of c) db)
unfolding insert_link_row
insert_link_row-Links c db v h =
    let valid = insert_link_row-IsConsistent (link_of c) db v in
    elim (Bool-cases (has_link (link_key (link_of c)) db)) [
      | inl old ↦ rw old (
        record { packets = refl; next_id = refl; same_checkins = refl; links = λ k e. e },
        (v, (old, tt)),
      )
      | inr new ↦
          rw (new, h)
            (
              record {
                packets = refl;
                next_id = refl;
                same_checkins = refl;
                links = λ k e. rw any_of-append (ground (arith, e));
              },
              ((rw (insert_link_row, new, h) at valid), (has_link-snoc db.checkin_packets _, tt)),
            )
    ]

after_link-Links :
    (c : Checkin) (rows : List Checkin) (next : Db → Outcome (Unit {0})) (db : Db) (x : Outcome ℕ)
    → Links (c ∷ []) db x
    → ((b : Db) → IsFurther db b → IsConsistent b → Links rows b (next b))
    → Links (c ∷ rows) db (after_link next x)
unfolding after_link
after_link-Links c rows next db (err e, b) h go = h
after_link-Links c rows next db (ok n, b) (far, (v, (linked, _))) go =
    all_linked (next b) (go b far v)
  where
    all_linked : (x : Outcome (Unit {0})) → Links rows b x → Links (c ∷ rows) db x
    all_linked (err e, b') h = h
    all_linked (ok u, b') (further, (v', h)) =
        (IsFurther-trans db b b' far further, (v', (further.links _ linked, h)))

link_checkins-Links :
    (rows : List Checkin) (db : Db)
    → IsConsistent db
    → All (λ (c : Checkin). has_raw c.packet_hash db ≡ true) rows
    → Links rows db (link_checkins rows db)
unfolding link_checkins
link_checkins-Links [] db v h =
    (record { packets = refl; next_id = refl; same_checkins = refl; links = λ k e. e }, (v, tt))
link_checkins-Links (c ∷ rows) db v (hc, h) =
    after_link-Links c rows (link_checkins rows) db _ (insert_link_row-Links c db v hc) (λ b far w.
      link_checkins-Links rows b w (
        All-map
          (λ (x : Checkin) l.
            ap (λ t. has_key raw_hash same same_iff x.packet_hash t) far.packets ∙ l)
          rows h))

pub backfill_links-Links : (db : Db) → IsConsistent db → Links db.checkins db (backfill_links db)
unfolding backfill_links undo
backfill_links-Links db v = undone _ (link_checkins-Links db.checkins db v v.checkin_parent)
  where
    undone : (x : Outcome (Unit {0})) → Links db.checkins db x → Links db.checkins db (undo db x)
    undone (err e, b) h = h
    undone (ok u, b) h = h
