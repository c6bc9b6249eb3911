-- ===== src/Ingest/Service/Consistency.antt =====
-- The handler keeps the store's constraints, whichever of its writes fail.
use mesh_monday.Base.{
  Bool, true, false, inl, inr, Bytes, Option-cases, Bool-cases, Result-cases, Result, ok, err,
}
use mesh_monday.Platform.{Platform}
use mesh_monday.Go.Time.{Time}
use mesh_monday.Checkins.Text.{Candidate}
use mesh_monday.Checkins.Extract.{extract_from_packet}
use mesh_monday.Checkins.Weeks.{is_monday_in_tz}
use mesh_monday.Storage.Schema.{Db, IsConsistent}
use mesh_monday.Storage.Exec.{SqlError, World, Exec}
use mesh_monday.Storage.Numbering.{IsNumbered}
use mesh_monday.Storage.Keeps.{
  Keeps, IsInvariant, IsConsistent-IsInvariant, IsNumbered-IsInvariant, insert_raw_packet-Keeps,
  insert_checkin-Keeps, insert_packet_observation-Keeps, insert_checkin_packet-Keeps,
}
use mesh_monday.Ingest.Retry.{with_busy_retry, busy_retry_attempts}
use mesh_monday.Storage.Retry.Bounds.{retry-Keeps}
use mesh_monday.Ingest.Service.{
  Service, Accepted, Clock, accept, file_checkin, handle_new, after_insert, store_accepted,
  handle_message,
}

-- What every INSERT keeps, the handler keeps.
module _ (P : Db → Type 0) (v : IsInvariant P) (p : Platform) (s : Service) where
  retried : {A : Type 0} (m : Exec A) → Keeps P m → Keeps P (with_busy_retry p m)
  retried m keep = retry-Keeps p P busy_retry_attempts m keep

  file_checkin-Keeps :
      (a : Accepted) (c : Candidate) (t : Time) (clock : Clock) (w : World)
      → P w.db
      → P (file_checkin p s a c t clock w).db
  unfolding file_checkin
  file_checkin-Keeps a c t clock w h =
      retried _ (insert_checkin-Keeps P v _) _
        (retried _ (insert_checkin_packet-Keeps P v _ _ _ _) w h)

  handle_new-Keeps :
      (a : Accepted) (t : Time) (clock : Clock) (w : World)
      → P w.db
      → P (handle_new p s a t clock w).db
  unfolding handle_new
  handle_new-Keeps a t clock w h =
      elim (Option-cases
        (extract_from_packet p a.packet.payload_type a.packet.payload_hex s.channel_keys)) [
          | inl e ↦ rw (e, handle_new) h
          | inr (c, e) ↦ elim (Bool-cases (is_monday_in_tz p t s.cfg.tz)) [
            | inl e' ↦ rw (e, handle_new, e') (file_checkin-Keeps a c t clock w h)
            | inr e' ↦ rw (e, handle_new, e') h
          ]
        ]

  after_insert-Keeps :
      (a : Accepted) (t : Time) (clock : Clock) (r : Result SqlError Bool) (w : World)
      → P w.db
      → P (after_insert p s a t clock (r, w)).db
  unfolding after_insert
  after_insert-Keeps a t clock (err e) w h = h
  after_insert-Keeps a t clock (ok false) w h =
      retried _ (insert_packet_observation-Keeps P v _ _ _) w h
  after_insert-Keeps a t clock (ok true) w h =
      handle_new-Keeps a t clock _ (retried _ (insert_packet_observation-Keeps P v _ _ _) w h)

  pub handle_message-Keeps :
      (topic payload : Bytes) (t : Time) (clock : Clock) (w : World)
      → P w.db
      → P (handle_message p s topic payload t clock w).db
  unfolding handle_message store_accepted
  handle_message-Keeps topic payload t clock w h = elim (Result-cases (accept p s topic payload)) [
    | inr (e, r) ↦ rw (r, handle_message) h
    | inl (a, r) ↦
        rw (r, handle_message)
          (after_insert-Keeps a t clock _ _ (retried _ (insert_raw_packet-Keeps P v _) w h))
  ]

-- Whatever the message, and whichever statements fail, a consistent store stays consistent: no hash
-- is stored twice, no user has two check-ins in a week, and no row lacks its packet.
pub handle_message-IsConsistent :
    (p : Platform) (s : Service) (topic payload : Bytes) (t : Time) (clock : Clock) (w : World)
    → IsConsistent w.db
    → IsConsistent (handle_message p s topic payload t clock w).db
handle_message-IsConsistent p s = handle_message-Keeps IsConsistent IsConsistent-IsInvariant p s

-- The packets that the handler stores stay numbered in their order.
pub handle_message-IsNumbered :
    (p : Platform) (s : Service) (topic payload : Bytes) (t : Time) (clock : Clock) (w : World)
    → IsNumbered w.db
    → IsNumbered (handle_message p s topic payload t clock w).db
handle_message-IsNumbered p s = handle_message-Keeps IsNumbered IsNumbered-IsInvariant p s
