-- ===== src/Commands/System.antt =====
-- The programs of cmd on one store: the server with its three kinds of work, the restore command and the
-- development seed. An event is one call of a handler, which runs to its end before the next begins;
-- what fails on the way, and how far it came, is for its world to say.
pub mod Kept
use mesh_monday.Base.{ℕ, List, Option, none, some, Bytes}
use mesh_monday.Platform.{Platform}
use mesh_monday.Config.{Config}
use mesh_monday.Go.Time.{Time}
use mesh_monday.Leaderboard.Compute.{UserState}
use mesh_monday.Storage.Schema.{Db}
use mesh_monday.Storage.Exec.{World}
use mesh_monday.Storage.Migrate.{migrate}
use mesh_monday.Ingest.Service.{Clock, new_service, handle_message}
use mesh_monday.Ingest.Restore.{restore_checkin_packets_from_raw}
use mesh_monday.Web.Server.{Request, Server, serve}
use mesh_monday.Mqtt.Consumer.{Message, build_message}
use mesh_monday.Commands.Retention.{Tick, run_once}
use mesh_monday.Commands.Seed.{seed}

pub data Event : Type 0 where
  -- `OpenSQLite`, with which each program begins.
  opening : Event
  -- A message of the broker, with the time of its arrival.
  delivery : (topic payload : Bytes) (arrived : Time) (clock : Clock) → Event
  -- A request, with the clock and the order in which a map is visited.
  request :
      (r : Request) (visit : List UserState → List UserState) (now : Time) (computed_at : ℕ) → Event
  -- A round of the retention loop.
  round : Tick → Event
  -- cmd/restorecheckinpackets and cmd/devseed.
  restoration : (now : ℕ) → Event
  seeding : (now : Time) (created_at : ℕ → ℕ) → Event

-- The handler that `main` passes to `Subscribe`.
pub on_message : Platform → Config → Clock → Option Message → World → World
on_message p c clock none w = w
on_message p c clock (some m) w =
    handle_message p (new_service p c) m.topic m.payload_hex m.observed_at clock w

-- What `main` wires together, by the configuration that was loaded.
pub handle_event : Platform → Config → Event → World → World
unfolding on_message
handle_event p c opening w = (migrate w).1
handle_event p c (delivery topic payload arrived clock) w =
    on_message p c clock (build_message c.mqtt_max_payload_bytes topic payload arrived) w
handle_event p c (request r visit now computed_at) w =
    (serve p (record { cfg = c; visit = visit; now = now; computed_at = computed_at }) r w).1
handle_event p c (round t) w = (run_once p c t.at t.disk w).1
handle_event p c (restoration now) w =
    (restore_checkin_packets_from_raw p (new_service p c) now w).1
handle_event p c (seeding now created_at) w = seed p c now created_at w

-- One event on the store, by a program with any configuration and under any schedule of faults.
pub data Step (p : Platform) : Db → Db → Type 0 where
  happens : (c : Config) (e : Event) (w : World) → Step p w.db (handle_event p c e w).db

-- What any sequence of them makes of a store.
pub data IsReached (p : Platform) (a : Db) : Db → Type 0 where
  start : IsReached p a a
  next : {b d : Db} → IsReached p a b → Step p b d → IsReached p a d
