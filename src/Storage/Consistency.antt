-- ===== src/Storage/Consistency.antt =====
-- Every statement keeps the UNIQUE and FOREIGN KEY constraints, whichever branch it takes.
use mesh_monday.Base.{
  ℕ, ◌≡◌, true, not, List, [], ◌∷◌, ◌++◌, inl, inr, arith, Bytes, Bool-cases, keep, any_of-append,
  any_of-keep_split, same, same_iff, has_key, Distinct-snoc, Distinct-keep, All-map, All-snoc,
  All-keep_and,
}
use mesh_monday.Storage.Schema.{
  RawPacket, Checkin, Observation, CheckinPacket, Db, IsConsistent, raw_hash, checkin_hash,
  week_user, observation_key, link_key, same_week_user, same_week_user_iff, same_observation,
  same_observation_iff, same_link, same_link_iff, has_raw,
}
use mesh_monday.Storage.Statements.{
  insert_raw, insert_checkin_row, insert_observation_row, insert_link_row, delete_raw, id_in,
}

-- A packet that is stored is stored still when another one is.
has_key-snoc :
    (h : Bytes) (rs : List RawPacket) (r : RawPacket)
    → has_key raw_hash same same_iff h rs ≡ true
    → has_key raw_hash same same_iff h (rs ++ r ∷ []) ≡ true
has_key-snoc h rs r e = rw any_of-append (ground arith)

pub insert_raw-IsConsistent :
    (r : RawPacket) (db : Db) → IsConsistent db → IsConsistent (insert_raw r db).1
unfolding insert_raw
insert_raw-IsConsistent r db v = elim (Bool-cases (has_raw r.packet_hash db)) [
  | inl old ↦ rw old v
  | inr new ↦ rw new (record {
    raw_unique = Distinct-snoc raw_hash same same_iff db.raw_packets _ v.raw_unique new;
    checkin_unique = v.checkin_unique;
    week_user_unique = v.week_user_unique;
    observation_unique = v.observation_unique;
    link_unique = v.link_unique;
    checkin_parent = All-map (λ c. has_key-snoc _ db.raw_packets _) db.checkins v.checkin_parent;
    observation_parent =
        All-map (λ o. has_key-snoc _ db.raw_packets _) db.observations v.observation_parent;
    link_parent = All-map (λ l. has_key-snoc _ db.raw_packets _) db.checkin_packets v.link_parent;
  })
]

pub insert_checkin_row-IsConsistent :
    (c : Checkin) (db : Db) → IsConsistent db → IsConsistent (insert_checkin_row c db).1
unfolding insert_checkin_row
insert_checkin_row-IsConsistent c db v =
    elim (Bool-cases (has_key checkin_hash same same_iff c.packet_hash db.checkins)) [
      | inl old ↦ rw old v
      | inr new ↦
          elim (Bool-cases
            (has_key week_user same_week_user same_week_user_iff (week_user c) db.checkins)) [
              | inl old' ↦ rw (new, old') v
              | inr new' ↦ elim (Bool-cases (has_raw c.packet_hash db)) [
                | inr orphan ↦ rw (new, new', orphan) v
                | inl parent ↦
                    rw (new, new', parent)
                      (record {
                        raw_unique = v.raw_unique;
                        checkin_unique =
                            Distinct-snoc checkin_hash same same_iff db.checkins _ v.checkin_unique
                              new;
                        week_user_unique =
                            Distinct-snoc week_user same_week_user same_week_user_iff db.checkins _
                              v.week_user_unique new';
                        observation_unique = v.observation_unique;
                        link_unique = v.link_unique;
                        checkin_parent = All-snoc _ db.checkins _ v.checkin_parent parent;
                        observation_parent = v.observation_parent;
                        link_parent = v.link_parent;
                      })
              ]
            ]
    ]

pub insert_observation_row-IsConsistent :
    (o : Observation) (db : Db) → IsConsistent db → IsConsistent (insert_observation_row o db).1
unfolding insert_observation_row
insert_observation_row-IsConsistent o db v =
    elim (Bool-cases (
      has_key observation_key same_observation same_observation_iff (observation_key o)
        db.observations)) [
          | inl old ↦ rw old v
          | inr new ↦ elim (Bool-cases (has_raw o.packet_hash db)) [
            | inr orphan ↦ rw (new, orphan) v
            | inl parent ↦
                rw (new, parent)
                  (record {
                    raw_unique = v.raw_unique;
                    checkin_unique = v.checkin_unique;
                    week_user_unique = v.week_user_unique;
                    observation_unique =
                        Distinct-snoc observation_key same_observation same_observation_iff
                          db.observations _ v.observation_unique new;
                    link_unique = v.link_unique;
                    checkin_parent = v.checkin_parent;
                    observation_parent = All-snoc _ db.observations _ v.observation_parent parent;
                    link_parent = v.link_parent;
                  })
          ]
        ]

pub insert_link_row-IsConsistent :
    (l : CheckinPacket) (db : Db) → IsConsistent db → IsConsistent (insert_link_row l db).1
unfolding insert_link_row
insert_link_row-IsConsistent l db v =
    elim (Bool-cases (has_key link_key same_link same_link_iff (link_key l) db.checkin_packets)) [
      | inl old ↦ rw old v
      | inr new ↦ elim (Bool-cases (has_raw l.packet_hash db)) [
        | inr orphan ↦ rw (new, orphan) v
        | inl parent ↦
            rw (new, parent)
              (record {
                raw_unique = v.raw_unique;
                checkin_unique = v.checkin_unique;
                week_user_unique = v.week_user_unique;
                observation_unique = v.observation_unique;
                link_unique =
                    Distinct-snoc link_key same_link same_link_iff db.checkin_packets _
                      v.link_unique new;
                checkin_parent = v.checkin_parent;
                observation_parent = v.observation_parent;
                link_parent = All-snoc _ db.checkin_packets _ v.link_parent parent;
              })
      ]
    ]

-- A packet that is stored and whose hash no deleted packet has is stored still.
has_key-spared :
    (ids : List ℕ) (rs : List RawPacket) (h : Bytes)
    → has_key raw_hash same same_iff h rs ≡ true
    → not (has_key raw_hash same same_iff h (keep (λ (r : RawPacket). id_in ids r.id) rs)) ≡ true
    → has_key raw_hash same same_iff h (keep (λ (r : RawPacket). not (id_in ids r.id)) rs) ≡ true
has_key-spared ids rs h e spared =
    ground
      (arith, any_of-keep_split (λ (r : RawPacket). same r.packet_hash h) (λ r. id_in ids r.id) rs)

-- The cascade leaves no row behind whose packet is gone.
pub delete_raw-IsConsistent :
    (ids : List ℕ) (db : Db) → IsConsistent db → IsConsistent (delete_raw ids db).1
unfolding delete_raw
delete_raw-IsConsistent ids db v = record {
  raw_unique = Distinct-keep raw_hash _ db.raw_packets v.raw_unique;
  checkin_unique = Distinct-keep checkin_hash _ db.checkins v.checkin_unique;
  week_user_unique = Distinct-keep week_user _ db.checkins v.week_user_unique;
  observation_unique = Distinct-keep observation_key _ db.observations v.observation_unique;
  link_unique = Distinct-keep link_key _ db.checkin_packets v.link_unique;
  checkin_parent =
      All-keep_and _ (λ c. has_key-spared ids db.raw_packets c.packet_hash) db.checkins
        v.checkin_parent;
  observation_parent =
      All-keep_and _ (λ o. has_key-spared ids db.raw_packets o.packet_hash) db.observations
        v.observation_parent;
  link_parent =
      All-keep_and _ (λ l. has_key-spared ids db.raw_packets l.packet_hash) db.checkin_packets
        v.link_parent;
}
