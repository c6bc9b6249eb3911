-- ===== src/Ingest/Service/Effects.antt =====
-- What one message does to the tables, under every schedule of faults.
use mesh_monday.Base.{
  ℕ, ◌≡◌, refl, Bool, true, false, inl, inr, arith, Bytes, Option-cases, Result, ok, err,
  if◌then◌else◌, codes,
}
use mesh_monday.Platform.{Platform}
use mesh_monday.Go.Time.{Time}
use mesh_monday.Go.Text.{contains}
use mesh_monday.Meshcore.{hash_packet}
use mesh_monday.Storage.Schema.{Db, RawPacket, Observation, has_raw}
use mesh_monday.Storage.Exec.{SqlError, World, exec, next_fault, message}
use mesh_monday.Storage.Statements.{insert_raw, insert_observation_row}
use mesh_monday.Storage.Inserts.{insert_raw_packet, insert_packet_observation}
use mesh_monday.Storage.Keeps.{Keeps, exec-Keeps}
use mesh_monday.Ingest.Retry.{busy_retry_attempts}
use mesh_monday.Storage.Retry.Bounds.{retry-Keeps, retry-Ensures, Ensures}
use mesh_monday.Ingest.Service.{
  Service, Accepted, Clock, raw_of, accept, after_insert, store_accepted, handle_message,
}

-- The tables that hold packets, check-ins and links are as they were.
pub record SameRecords (a b : Db) : Type 0 where
  pub raw_packets : b.raw_packets ≡ a.raw_packets
  pub checkins : b.checkins ≡ a.checkins
  pub checkin_packets : b.checkin_packets ≡ a.checkin_packets

SameRecords-refl : (a : Db) → SameRecords a a
SameRecords-refl a = record { raw_packets = refl; checkins = refl; checkin_packets = refl }

insert_observation_row-SameRecords :
    (a db : Db) (o : Observation) → SameRecords a db → SameRecords a (insert_observation_row o db).1
unfolding insert_observation_row
insert_observation_row-SameRecords a db o s = record {
  raw_packets = ground (arith, s.raw_packets);
  checkins = ground (arith, s.checkins);
  checkin_packets = ground (arith, s.checkin_packets);
}

observation-SameRecords :
    (a : Db) (h o : Bytes) (t : ℕ) → Keeps (SameRecords a) (insert_packet_observation h o t)
unfolding insert_packet_observation
observation-SameRecords a h o t =
    exec-Keeps (SameRecords a) (insert_observation_row _)
      (λ db s. insert_observation_row-SameRecords a db _ s)

-- Inserting a packet that is stored already changes nothing and never reports a new row.
pub insert_stored-Ensures :
    (r : RawPacket) (a : Db)
    → has_raw r.packet_hash a ≡ true
    → Ensures (λ db. db ≡ a) (λ inserted. inserted ≡ false) (insert_raw_packet r)
unfolding insert_raw_packet exec insert_raw contains
insert_stored-Ensures r a stored w e =
    let stored' : has_raw r.packet_hash w.db ≡ true = rw e stored in
    elim (Option-cases (next_fault w.faults).0) [
      | inl quiet ↦ rw (quiet, stored') (e, λ b q. cc)
      | inr (f, faulty) ↦
          rw faulty
            (e, λ b q. unique_only (contains (message f) (codes "UNIQUE constraint failed")) f b q)
    ]
  where
    unique_only :
        (test : Bool) (e : SqlError) (b : Bool)
        → (if test then ok false else err e) ≡ ok b
        → b ≡ false
    unique_only true e b q = cc
    unique_only false e b q = cc

module _ (p : Platform) (s : Service) where
  after_insert-duplicate :
      (a : Accepted) (t : Time) (clock : Clock) (db : Db) (r : Result SqlError Bool) (w : World)
      → w.db ≡ db
      → ((b : Bool) → r ≡ ok b → b ≡ false)
      → SameRecords db (after_insert p s a t clock (r, w)).db
  unfolding after_insert
  after_insert-duplicate a t clock db (err e) w same_db old = rw same_db (SameRecords-refl db)
  after_insert-duplicate a t clock db (ok false) w same_db old =
      retry-Keeps p (SameRecords db) busy_retry_attempts _ (observation-SameRecords db _ _ _) w
        (rw same_db (SameRecords-refl db))
  after_insert-duplicate a t clock db (ok true) w same_db old = cc (old true refl)

-- If a message is accepted and the hash of its packet is stored already, handling it adds no
-- packet, no check-in and no link, whatever faults strike: at most the observer is noted.
pub handle_message_duplicate :
    (p : Platform) (s : Service) (topic payload : Bytes) (a : Accepted) (t : Time) (clock : Clock)
    (w : World)
    → accept p s topic payload ≡ ok a
    → has_raw (hash_packet p a.packet_hex) w.db ≡ true
    → SameRecords w.db (handle_message p s topic payload t clock w).db
unfolding handle_message store_accepted
handle_message_duplicate p s topic payload a t clock w accepted stored =
    let (kept, old) =
      retry-Ensures p (λ db. db ≡ w.db) (λ inserted. inserted ≡ false) busy_retry_attempts _
        (insert_stored-Ensures (raw_of p a t clock) w.db stored) w refl in
    rw (accepted, handle_message) (after_insert-duplicate p s a t clock w.db _ _ kept old)
