-- ===== src/Commands/System/Kept.antt =====
-- What the programs keep of a store, one event after the other.
use mesh_monday.Base.{subst, refl, ap, sym, List, [], append-nil, Option, none, some}
use mesh_monday.Platform.{Platform}
use mesh_monday.Config.{Config}
use mesh_monday.Storage.Schema.{Checkin, Db, IsConsistent}
use mesh_monday.Storage.Exec.{World}
use mesh_monday.Storage.Numbering.{IsNumbered, same_raw-IsNumbered}
use mesh_monday.Storage.Migrate.Opened.{migrate-HasCheckins}
use mesh_monday.Storage.Retention.Effects.{prune_raw_packets-Spares, prune_raw_packets-IsConsistent}
use mesh_monday.Ingest.Service.{Clock, new_service}
use mesh_monday.Storage.Migrate.{migrate}
use mesh_monday.Ingest.Service.Consistency.{handle_message-Keeps}
use mesh_monday.Ingest.Restore.Links.{OnlyLinks, restore_checkin_packets_from_raw-OnlyLinks}
use mesh_monday.Web.Server.Requests.{OnlySnapshots, serve-OnlySnapshots}
use mesh_monday.Mqtt.Consumer.{Message, build_message}
use mesh_monday.Commands.Retention.{Tick, weeks_of, run_once}
use mesh_monday.Commands.Retention.Rounds.{run_once_keeps}
use mesh_monday.Commands.Seed.Kept.{seed-Keeps}
use mesh_monday.Commands.System.{
  Event, opening, delivery, request, round, restoration, seeding, on_message, handle_event, Step,
  happens, IsReached, start, next,
}
use mesh_monday.Storage.Kept.{
  HasKept, same_checkins-HasKept, replace_snapshots-HasKept, HasKept-IsInvariant,
}

module _ (rows : List Checkin) where
  snapshots-HasKept : (a b : Db) → HasKept rows a → OnlySnapshots a b → HasKept rows b
  snapshots-HasKept a b h e =
      subst (HasKept rows) (sym e) (replace_snapshots-HasKept rows a b.snapshots h)

  links-HasKept : (a b : Db) → HasKept rows a → OnlyLinks a b → IsConsistent b → HasKept rows b
  links-HasKept a b h e v =
      same_checkins-HasKept rows a b h v
        (same_raw-IsNumbered a b (ap (λ (d : Db). d.raw_packets) e) (ap (λ (d : Db). d.next_raw) e)
          h.numbered)
        (ap (λ (d : Db). d.checkins) e)

module _ (rows : List Checkin) (p : Platform) where
  migrate-HasKept : (w : World) → HasKept rows w.db → HasKept rows (migrate w).1.db
  migrate-HasKept w h =
      let kept =
        migrate-HasCheckins w.db.checkins w
          (record { consistent = h.consistent; numbered = h.numbered; same_checkins = refl }) in
      same_checkins-HasKept rows w.db _ h kept.consistent kept.numbered kept.same_checkins

  module _ (c : Config) where
    on_message-HasKept :
        (clock : Clock) (m : Option Message) (w : World)
        → HasKept rows w.db
        → HasKept rows (on_message p c clock m w).db
    unfolding on_message
    on_message-HasKept clock none w h = h
    on_message-HasKept clock (some m) w h =
        handle_message-Keeps (HasKept rows) (HasKept-IsInvariant rows) p (new_service p c) m.topic
          m.payload_hex m.observed_at clock w h

    round-HasKept :
        (t : Tick) (w : World) → HasKept rows w.db → HasKept rows (run_once p c t.at t.disk w).1.db
    round-HasKept t w h =
        let weeks = weeks_of c.raw_monday_retain_weeks in
        let (spared, numbered) = prune_raw_packets-Spares p t.at c.tz weeks w h.numbered in
        let consistent =
          prune_raw_packets-IsConsistent p t.at c.tz weeks w h.numbered h.consistent in
        run_once_keeps (HasKept rows) p c t w
          (same_checkins-HasKept rows w.db _ h consistent numbered spared.checkins)

    handle_event-HasKept :
        (e : Event) (w : World) → HasKept rows w.db → HasKept rows (handle_event p c e w).db
    unfolding handle_event
    handle_event-HasKept opening w h = migrate-HasKept w h
    handle_event-HasKept (delivery topic payload arrived clock) w h =
        on_message-HasKept clock (build_message c.mqtt_max_payload_bytes topic payload arrived) w h
    handle_event-HasKept (request r visit now computed_at) w h =
        snapshots-HasKept rows w.db _ h (serve-OnlySnapshots p _ r w)
    handle_event-HasKept (round t) w h = round-HasKept t w h
    handle_event-HasKept (restoration now) w h =
        let (only, v) =
          restore_checkin_packets_from_raw-OnlyLinks p (new_service p c) now w h.consistent in
        links-HasKept rows w.db _ h only v
    handle_event-HasKept (seeding now created_at) w h =
        seed-Keeps (HasKept rows) (HasKept-IsInvariant rows) p c now created_at w h

  Step-HasKept : {b d : Db} → Step p b d → HasKept rows b → HasKept rows d
  Step-HasKept (happens c e w) h = handle_event-HasKept c e w h

-- On a store in which the constraints hold and the packets are numbered, whatever the programs do to it,
-- one call after the other, in any order, with any configurations and whatever fails, the
-- constraints go on to hold, and each check-in that was there stays as it was, before all newer ones.
pub reached-HasKept :
    (p : Platform) {a b : Db}
    → IsReached p a b
    → IsConsistent a
    → IsNumbered a
    → HasKept a.checkins b
reached-HasKept p {a} start v u = record {
  consistent = v;
  numbered = u;
  newer = ([], sym (append-nil a.checkins));
}
reached-HasKept p {a} (next r s) v u = Step-HasKept a.checkins p s (reached-HasKept p r v u)
