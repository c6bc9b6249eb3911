-- ===== src/Storage/Numbering.antt =====
-- AUTOINCREMENT: the rows of raw_packets stand in the order of their ids, and a new id is larger.
use mesh_monday.Base.{
  ℕ, ◌+◌, ◌≤◌, ◌<◌, ◌≡◌, Bool, List, [], ◌∷◌, ◌++◌, inl, inr, arith, Bool-cases, keep, All, All-map,
  All-snoc, All-keep,
}
use mesh_monday.Storage.Schema.{RawPacket, Checkin, Observation, CheckinPacket, Db, has_raw}
use mesh_monday.Storage.Statements.{
  insert_raw, insert_checkin_row, insert_observation_row, insert_link_row, delete_raw,
}

abbrev pub IsAscending : List RawPacket → Type 0
IsAscending [] = Unit
IsAscending (r ∷ rs) = All (λ (s : RawPacket). r.id < s.id) rs × IsAscending rs

pub record IsNumbered (db : Db) : Type 0 where
  pub ascending : IsAscending db.raw_packets
  pub bounded : All (λ (r : RawPacket). (1 ≤ r.id) × (r.id < db.next_raw)) db.raw_packets
  pub next_pos : 1 ≤ db.next_raw

pub IsAscending-keep :
    (p : RawPacket → Bool) (rs : List RawPacket) → IsAscending rs → IsAscending (keep p rs)
unfolding keep
IsAscending-keep p [] h = h
IsAscending-keep p (r ∷ rs) (hr, h) =
    let rest = IsAscending-keep p rs h in
    let above = All-keep (λ (s : RawPacket). r.id < s.id) p rs hr in
    elim (Bool-cases (p r)) [ inl e ↦ rw (keep, e) (above, rest) | inr e ↦ rw (keep, e) rest ]

IsAscending-snoc :
    (rs : List RawPacket) (z : RawPacket)
    → IsAscending rs
    → All (λ (r : RawPacket). r.id < z.id) rs
    → IsAscending (rs ++ z ∷ [])
IsAscending-snoc [] z h k = (tt, tt)
IsAscending-snoc (r ∷ rs) z (hr, h) (k, ks) =
    (All-snoc (λ (s : RawPacket). r.id < s.id) rs z hr k, IsAscending-snoc rs z h ks)

pub insert_raw-IsNumbered :
    (r : RawPacket) (db : Db) → IsNumbered db → IsNumbered (insert_raw r db).1
unfolding insert_raw
insert_raw-IsNumbered r db v = elim (Bool-cases (has_raw r.packet_hash db)) [
  | inl old ↦ rw old v
  | inr new ↦
      let z = record r { id = db.next_raw } in
      rw new (record {
        ascending =
            IsAscending-snoc db.raw_packets z v.ascending
              (All-map (λ s b. b.1) db.raw_packets v.bounded);
        bounded =
            All-snoc (λ (s : RawPacket). (1 ≤ s.id) × (s.id < db.next_raw + 1)) db.raw_packets z
              (All-map (λ s b. (b.0, omega (arith, b.1))) db.raw_packets v.bounded)
              (v.next_pos, omega arith);
        next_pos = omega arith;
      })
]

pub same_raw-IsNumbered :
    (a b : Db)
    → b.raw_packets ≡ a.raw_packets
    → b.next_raw ≡ a.next_raw
    → IsNumbered a
    → IsNumbered b
same_raw-IsNumbered a b e f v = record {
  ascending = rw e v.ascending;
  bounded = rw (e, f) v.bounded;
  next_pos = rw f v.next_pos;
}

pub insert_checkin_row-IsNumbered :
    (c : Checkin) (db : Db) → IsNumbered db → IsNumbered (insert_checkin_row c db).1
unfolding insert_checkin_row
insert_checkin_row-IsNumbered c db = same_raw-IsNumbered db _ (ground arith) (ground arith)

pub insert_observation_row-IsNumbered :
    (o : Observation) (db : Db) → IsNumbered db → IsNumbered (insert_observation_row o db).1
unfolding insert_observation_row
insert_observation_row-IsNumbered o db = same_raw-IsNumbered db _ (ground arith) (ground arith)

pub insert_link_row-IsNumbered :
    (l : CheckinPacket) (db : Db) → IsNumbered db → IsNumbered (insert_link_row l db).1
unfolding insert_link_row
insert_link_row-IsNumbered l db = same_raw-IsNumbered db _ (ground arith) (ground arith)

pub delete_raw-IsNumbered :
    (ids : List ℕ) (db : Db) → IsNumbered db → IsNumbered (delete_raw ids db).1
unfolding delete_raw
delete_raw-IsNumbered ids db v = record {
  ascending = IsAscending-keep _ db.raw_packets v.ascending;
  bounded =
      All-keep (λ (r : RawPacket). (1 ≤ r.id) × (r.id < db.next_raw)) _ db.raw_packets v.bounded;
  next_pos = v.next_pos;
}
