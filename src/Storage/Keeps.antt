-- ===== src/Storage/Keeps.antt =====
-- What the INSERT statements keep, an action built from them keeps, whatever the schedule of faults
-- says.
use mesh_monday.Base.{ℕ, inl, inr, Bytes, Option-cases}
use mesh_monday.Storage.Schema.{RawPacket, Checkin, Observation, CheckinPacket, Db, IsConsistent}
use mesh_monday.Storage.Exec.{World, Exec, exec, next_fault}
use mesh_monday.Storage.Statements.{
  Outcome, insert_raw, insert_checkin_row, insert_observation_row, insert_link_row,
}
use mesh_monday.Storage.Inserts.{
  insert_raw_packet, insert_checkin, insert_packet_observation, insert_checkin_packet,
}
use mesh_monday.Storage.Consistency.{
  insert_raw-IsConsistent, insert_checkin_row-IsConsistent, insert_observation_row-IsConsistent,
  insert_link_row-IsConsistent,
}
use mesh_monday.Storage.Numbering.{
  IsNumbered, insert_raw-IsNumbered, insert_checkin_row-IsNumbered,
  insert_observation_row-IsNumbered, insert_link_row-IsNumbered,
}

abbrev pub Keeps : {A : Type 0} → (Db → Type 0) → Exec A → Type 0
Keeps P m = (w : World) → P w.db → P (m w).1.db

pub exec-Keeps :
    {A : Type 0} (P : Db → Type 0) (statement : Db → Outcome A)
    → ((db : Db) → P db → P (statement db).1)
    → Keeps P (exec statement)
unfolding exec
exec-Keeps P statement keep w h = elim (Option-cases (next_fault w.faults).0) [
  | inl e ↦ rw e (keep w.db h)
  | inr (f, e) ↦ rw e h
]

-- A property of the store that each INSERT keeps.
pub record IsInvariant (P : Db → Type 0) : Type 0 where
  pub raw : (r : RawPacket) (db : Db) → P db → P (insert_raw r db).1
  pub checkin : (c : Checkin) (db : Db) → P db → P (insert_checkin_row c db).1
  pub observation : (o : Observation) (db : Db) → P db → P (insert_observation_row o db).1
  pub link : (l : CheckinPacket) (db : Db) → P db → P (insert_link_row l db).1

pub IsConsistent-IsInvariant : IsInvariant IsConsistent
IsConsistent-IsInvariant = record {
  raw = insert_raw-IsConsistent;
  checkin = insert_checkin_row-IsConsistent;
  observation = insert_observation_row-IsConsistent;
  link = insert_link_row-IsConsistent;
}

pub IsNumbered-IsInvariant : IsInvariant IsNumbered
IsNumbered-IsInvariant = record {
  raw = insert_raw-IsNumbered;
  checkin = insert_checkin_row-IsNumbered;
  observation = insert_observation_row-IsNumbered;
  link = insert_link_row-IsNumbered;
}

-- The methods of the store keep what the statements keep.
module _ (P : Db → Type 0) (v : IsInvariant P) where
  pub insert_raw_packet-Keeps : (r : RawPacket) → Keeps P (insert_raw_packet r)
  unfolding insert_raw_packet
  insert_raw_packet-Keeps r = exec-Keeps P (insert_raw r) (v.raw r)

  pub insert_checkin-Keeps : (c : Checkin) → Keeps P (insert_checkin c)
  unfolding insert_checkin
  insert_checkin-Keeps c = exec-Keeps P (insert_checkin_row c) (v.checkin c)

  pub insert_packet_observation-Keeps :
      (h o : Bytes) (t : ℕ) → Keeps P (insert_packet_observation h o t)
  unfolding insert_packet_observation
  insert_packet_observation-Keeps h o t = exec-Keeps P (insert_observation_row _) (v.observation _)

  pub insert_checkin_packet-Keeps :
      (d : ℕ) (u h : Bytes) (t : ℕ) → Keeps P (insert_checkin_packet d u h t)
  unfolding insert_checkin_packet
  insert_checkin_packet-Keeps d u h t = exec-Keeps P (insert_link_row _) (v.link _)
