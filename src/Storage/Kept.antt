-- ===== src/Storage/Kept.antt =====
-- A store that keeps its constraints and all of its check-ins.
use mesh_monday.Base.{
  has_key, same, same_iff, ◌||◌, ◌≡◌, refl, ap, ◌∙◌, List, [], ◌∷◌, ◌++◌, append-nil, append_assoc,
  inl, inr, arith, Bool-cases,
}
use mesh_monday.Storage.Schema.{
  RawPacket, Checkin, Observation, CheckinPacket, Db, Snapshot, IsConsistent, checkin_hash,
  week_user, same_week_user, same_week_user_iff, has_raw,
}
use mesh_monday.Storage.Statements.{
  insert_raw, insert_checkin_row, insert_observation_row, insert_link_row,
}
use mesh_monday.Storage.Numbering.{IsNumbered, same_raw-IsNumbered}
use mesh_monday.Storage.Keeps.{IsInvariant, IsConsistent-IsInvariant, IsNumbered-IsInvariant}

module _ (rows : List Checkin) where
  -- The constraints hold, the packets are numbered, and the check-ins are these and newer ones.
  pub record HasKept (db : Db) : Type 0 where
    pub consistent : IsConsistent db
    pub numbered : IsNumbered db
    pub newer : (more : List Checkin) × (db.checkins ≡ rows ++ more)

  -- Where the check-ins are as they were.
  pub same_checkins-HasKept :
      (a b : Db) → HasKept a → IsConsistent b → IsNumbered b → b.checkins ≡ a.checkins → HasKept b
  same_checkins-HasKept a b h v u e =
      let (more, split) = h.newer in
      record { consistent = v; numbered = u; newer = (more, e ∙ split) }

  pub replace_snapshots-HasKept :
      (db : Db) (board : List Snapshot) → HasKept db → HasKept (record db { snapshots = board })
  replace_snapshots-HasKept db board h = record {
    consistent = record {
      raw_unique = h.consistent.raw_unique;
      checkin_unique = h.consistent.checkin_unique;
      week_user_unique = h.consistent.week_user_unique;
      observation_unique = h.consistent.observation_unique;
      link_unique = h.consistent.link_unique;
      checkin_parent = h.consistent.checkin_parent;
      observation_parent = h.consistent.observation_parent;
      link_parent = h.consistent.link_parent;
    };
    numbered = same_raw-IsNumbered db _ refl refl h.numbered;
    newer = h.newer;
  }

-- A check-in that is inserted comes last.
insert_checkin_row-newer :
    (c : Checkin) (db : Db)
    → (more : List Checkin) × ((insert_checkin_row c db).1.checkins ≡ db.checkins ++ more)
unfolding insert_checkin_row
insert_checkin_row-newer c db =
    elim (Bool-cases (
      has_key checkin_hash same same_iff c.packet_hash db.checkins
      || has_key week_user same_week_user same_week_user_iff (week_user c) db.checkins)) [
        | inl old ↦ ([], rw (old, append-nil) refl)
        | inr new ↦ elim (Bool-cases (has_raw c.packet_hash db)) [
          | inr orphan ↦ ([], rw (new, orphan, append-nil) refl)
          | inl parent ↦ (record c { id = db.next_checkin } ∷ [], rw (new, parent) refl)
        ]
      ]

pub insert_raw-checkins : (r : RawPacket) (db : Db) → (insert_raw r db).1.checkins ≡ db.checkins
unfolding insert_raw
insert_raw-checkins r db = ground arith

pub insert_observation_row-checkins :
    (o : Observation) (db : Db) → (insert_observation_row o db).1.checkins ≡ db.checkins
unfolding insert_observation_row
insert_observation_row-checkins o db = ground arith

pub insert_link_row-checkins :
    (l : CheckinPacket) (db : Db) → (insert_link_row l db).1.checkins ≡ db.checkins
unfolding insert_link_row
insert_link_row-checkins l db = ground arith

pub HasKept-IsInvariant : (rows : List Checkin) → IsInvariant (HasKept rows)
HasKept-IsInvariant rows =
    let v = IsConsistent-IsInvariant in
    let u = IsNumbered-IsInvariant in
    record {
      raw = λ r db h.
          same_checkins-HasKept rows db _ h (v.raw r db h.consistent) (u.raw r db h.numbered)
            (insert_raw-checkins r db);
      observation = λ o db h.
          same_checkins-HasKept rows db _ h (v.observation o db h.consistent)
            (u.observation o db h.numbered) (insert_observation_row-checkins o db);
      link = λ l db h.
          same_checkins-HasKept rows db _ h (v.link l db h.consistent) (u.link l db h.numbered)
            (insert_link_row-checkins l db);
      checkin = λ c db h.
          let (more, split) = h.newer in
          let (last, e) = insert_checkin_row-newer c db in
          record {
            consistent = v.checkin c db h.consistent;
            numbered = u.checkin c db h.numbered;
            newer = (
              more ++ last,
              e ∙ ap (λ (t : List Checkin). t ++ last) split ∙ append_assoc rows more last,
            );
          };
    }
