-- ===== src/Ingest/Service/Overlap.antt =====
-- The statements of the handler are steps that may run beside a pruning.
use mesh_monday.Base.{
  ℕ, ◌≡◌, refl, Bool, true, false, inl, inr, Bytes, Option-cases, Bool-cases, Result-cases, Result,
  ok, err,
}
use mesh_monday.Platform.{Platform}
use mesh_monday.Go.Time.{Time, before}
use mesh_monday.Meshcore.{hash_packet}
use mesh_monday.Checkins.Text.{Candidate}
use mesh_monday.Checkins.Extract.{extract_from_packet}
use mesh_monday.Checkins.Weeks.{is_monday_in_tz, week_start_monday}
use mesh_monday.Storage.Schema.{Db, has_raw}
use mesh_monday.Storage.Exec.{SqlError, World, Exec}
use mesh_monday.Storage.Statements.{
  insert_raw, insert_checkin_row, insert_observation_row, insert_link_row,
}
use mesh_monday.Storage.Inserts.{
  insert_raw_packet, insert_checkin, insert_packet_observation, insert_checkin_packet,
}
use mesh_monday.Storage.Keeps.{Keeps, exec-Keeps}
use mesh_monday.Storage.Retry.Bounds.{retry-Keeps, retry-Ensures}
use mesh_monday.Storage.Retention.Overlap.{
  Phase, IsRecent, store_packet, note_observer, add_link, check_in, IsReached, next,
}
use mesh_monday.Storage.Retention.Overlap.Added.{
  insert_observation_row-SameGuards, insert_link_row-SameGuards, insert_checkin_row-packets,
}
use mesh_monday.Storage.Retention.Overlap.Recent.{no_raw-IsRecent, insert_raw-IsRecent}
use mesh_monday.Ingest.Retry.{busy_retry_attempts, with_busy_retry}
use mesh_monday.Ingest.Service.{
  Service, Accepted, Clock, raw_of, checkin_of, accept, file_checkin, handle_new, after_insert,
  store_accepted, handle_message,
}
use mesh_monday.Ingest.Service.Effects.{insert_stored-Ensures}

module _ (p : Platform) (s : Service) (cutoff : Time) (start : Db) (at : Phase) (t : Time)
    (since : before (week_start_monday p t s.cfg.tz) cutoff ≡ false) where
  abbrev IsPath : Db → Type 0
  IsPath db = IsReached p s.cfg.tz cutoff start at db

  -- A path on which the hash is that of recent packets, if today is a Monday.
  abbrev IsOnWay : Bytes → Db → Type 0
  IsOnWay h db = IsPath db × (is_monday_in_tz p t s.cfg.tz ≡ true → IsRecent p s.cfg.tz cutoff h db)

  module _ (a : Accepted) (clock : Clock) where
    abbrev hash : Bytes
    hash = hash_packet p a.packet_hex

    raw-IsOnWay : Keeps (IsOnWay hash) (insert_raw_packet (raw_of p a t clock))
    unfolding insert_raw_packet
    raw-IsOnWay = exec-Keeps (IsOnWay hash) (insert_raw (raw_of p a t clock)) (λ db (path, recent).
        (
          next path (store_packet at (raw_of p a t clock) db),
          λ monday.
              insert_raw-IsRecent p s.cfg.tz cutoff hash (raw_of p a t clock) t db refl monday since
                (recent monday),
        ))

    observation-IsPath :
        (h o : Bytes) (seen : ℕ) → Keeps IsPath (insert_packet_observation h o seen)
    unfolding insert_packet_observation
    observation-IsPath h o seen =
        exec-Keeps IsPath (insert_observation_row _) (λ db path. next path (note_observer at _ db))

    observation-IsOnWay :
        (h o : Bytes) (seen : ℕ) → Keeps (IsOnWay hash) (insert_packet_observation h o seen)
    unfolding insert_packet_observation
    observation-IsOnWay h o seen =
        exec-Keeps (IsOnWay hash) (insert_observation_row _) (λ db (path, recent). (
          next path (note_observer at _ db),
          λ monday. rw (insert_observation_row-SameGuards _ db).packets (recent monday),
        ))

    link-IsOnWay :
        (d : ℕ) (u h : Bytes) (seen : ℕ) → Keeps (IsOnWay hash) (insert_checkin_packet d u h seen)
    unfolding insert_checkin_packet
    link-IsOnWay d u h seen = exec-Keeps (IsOnWay hash) (insert_link_row _) (λ db (path, recent). (
      next path (add_link at _ db),
      λ monday. rw (insert_link_row-SameGuards _ db).packets (recent monday),
    ))

    checkin-IsOnWay :
        (c : Candidate)
        → is_monday_in_tz p t s.cfg.tz ≡ true
        → Keeps (IsOnWay hash) (insert_checkin (checkin_of p s a c t clock))
    unfolding insert_checkin
    checkin-IsOnWay c monday =
        exec-Keeps (IsOnWay hash) (insert_checkin_row _) (λ db (path, recent). (
          next path (check_in at (checkin_of p s a c t clock) db (recent monday)),
          λ m. rw (insert_checkin_row-packets _ db).0 (recent m),
        ))

    retried :
        {A : Type 0} (P : Db → Type 0) (m : Exec A)
        → Keeps P m
        → (w : World) → P w.db
        → P (with_busy_retry p m w).1.db
    retried P m keep = retry-Keeps p P busy_retry_attempts m keep

    file_checkin-IsPath :
        (c : Candidate) (w : World)
        → is_monday_in_tz p t s.cfg.tz ≡ true
        → IsOnWay hash w.db
        → IsPath (file_checkin p s a c t clock w).db
    unfolding file_checkin
    file_checkin-IsPath c w monday h =
        (retried (IsOnWay hash) _ (checkin-IsOnWay c monday) _
          (retried (IsOnWay hash) _ (link-IsOnWay _ _ _ _) w h)).0

    handle_new-IsPath : (w : World) → IsOnWay hash w.db → IsPath (handle_new p s a t clock w).db
    unfolding handle_new
    handle_new-IsPath w h =
        elim (Option-cases
          (extract_from_packet p a.packet.payload_type a.packet.payload_hex s.channel_keys)) [
            | inl e ↦ rw (e, handle_new) h.0
            | inr (c, e) ↦ elim (Bool-cases (is_monday_in_tz p t s.cfg.tz)) [
              | inl e' ↦ rw (e, handle_new, e') (file_checkin-IsPath c w e' h)
              | inr e' ↦ rw (e, handle_new, e') h.0
            ]
          ]

    after_insert-IsPath :
        (r : Result SqlError Bool) (w : World)
        → IsOnWay hash w.db
        → IsPath (after_insert p s a t clock (r, w)).db
    unfolding after_insert
    after_insert-IsPath (err e) w h = h.0
    after_insert-IsPath (ok false) w h = retried IsPath _ (observation-IsPath _ _ _) w h.0
    after_insert-IsPath (ok true) w h =
        handle_new-IsPath _ (retried (IsOnWay hash) _ (observation-IsOnWay _ _ _) w h)

    -- A packet that was there before is not filed again.
    after_stored-IsPath :
        (r : Result SqlError Bool) (w : World)
        → ((b : Bool) → r ≡ ok b → b ≡ false)
        → IsPath w.db
        → IsPath (after_insert p s a t clock (r, w)).db
    unfolding after_insert
    after_stored-IsPath (err e) w old h = h
    after_stored-IsPath (ok false) w old h = retried IsPath _ (observation-IsPath _ _ _) w h
    after_stored-IsPath (ok true) w old h = cc (old true refl)

    store_accepted-IsPath : (w : World) → IsPath w.db → IsPath (store_accepted p s a t clock w).db
    unfolding store_accepted
    store_accepted-IsPath w h = elim (Bool-cases (has_raw hash w.db)) [
      | inl stored ↦
          let (same_db, old) =
            retry-Ensures p (λ db. db ≡ w.db) (λ inserted. inserted ≡ false) busy_retry_attempts _
              (insert_stored-Ensures (raw_of p a t clock) w.db stored) w refl in
          after_stored-IsPath _ _ old (rw same_db h)
      | inr new ↦ after_insert-IsPath _ _ (
          retried (IsOnWay hash) _ raw-IsOnWay w
            (h, λ monday. no_raw-IsRecent p s.cfg.tz cutoff hash w.db new))
    ]

  -- If the message was seen in a week that is not before the cutoff of a pruning, then from a store that
  -- steps reach, whatever fails, steps reach the store that the handler leaves, with the pruning
  -- where it was.
  pub handle_message-IsReached :
      (topic payload : Bytes) (clock : Clock) (w : World)
      → IsReached p s.cfg.tz cutoff start at w.db
      → IsReached p s.cfg.tz cutoff start at (handle_message p s topic payload t clock w).db
  unfolding handle_message
  handle_message-IsReached topic payload clock w h =
      elim (Result-cases (accept p s topic payload)) [
        | inr (e, r) ↦ rw (r, handle_message) h
        | inl (a, r) ↦ rw (r, handle_message) (store_accepted-IsPath a clock w h)
      ]
