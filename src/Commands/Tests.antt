-- ===== src/Commands/Tests.antt =====
-- The store of Storage/Retention/Tests, with a packet that is deleted and a check-in that is not.
use mesh_monday.Base.{List, [], ◌∷◌, some, codes}
use mesh_monday.Checkins.Tests.{plain}
use mesh_monday.Config.Tests.{test_config}
use mesh_monday.Storage.Schema.{Db}
use mesh_monday.Storage.Exec.{World}
use mesh_monday.Storage.Space.{Disk}
use mesh_monday.Storage.Retention.Tests.{
  checkin, three_packets, store, now, store-IsNumbered, three_packets-IsConsistent,
}
use mesh_monday.Commands.Retention.{Tick, run_retention_loop}
use mesh_monday.Commands.Retention.Rounds.{AreCounted, run_retention_loop-AreCounted}
use mesh_monday.Commands.System.{
  Event, opening, delivery, request, round, handle_event, IsReached, start, next, happens,
}
use mesh_monday.Storage.Kept.{HasKept}
use mesh_monday.Commands.System.Kept.{reached-HasKept}

abbrev disk : Disk
disk = record {
  page_size = 4096;
  page_count = 20;
  freelist_count = 3;
  databases = (codes "main", some (codes "/data/mesh.db")) ∷ [];
  file_size = λ path. some 81920;
}

abbrev tick : Tick
tick = record { at = now; disk = disk }

run_retention_loop-AreCounted_example :
    AreCounted plain test_config 3 (run_retention_loop plain test_config (tick ∷ tick ∷ []) store)
run_retention_loop-AreCounted_example =
    run_retention_loop-AreCounted plain test_config (tick ∷ tick ∷ []) store store-IsNumbered

-- The store is opened, a round of pruning runs, and a message and a request arrive.
abbrev events : List Event
events =
    opening
    ∷ round tick
    ∷ delivery (codes "meshcore/SEA/dev1/packets") (codes "110041766572793a206869") now
        (record { received_at = 1; linked_at = 2; created_at = 3 })
    ∷ request (record { method = codes "GET"; path = codes "/leaderboard"; week = [] }) (λ s. s) now
        4
    ∷ []

abbrev world_of : Db → World
world_of db = record { db = db; faults = []; waits = [] }

abbrev after : List Event → Db → Db
after [] db = db
after (e ∷ es) db = after es (handle_event plain test_config e (world_of db)).db

after-IsReached :
    (es : List Event) (a b : Db) → IsReached plain a b → IsReached plain a (after es b)
after-IsReached [] a b r = r
after-IsReached (e ∷ es) a b r =
    after-IsReached es a _ (next r (happens test_config e (world_of b)))

reached-HasKept_example : HasKept (checkin ∷ []) (after events three_packets)
reached-HasKept_example =
    reached-HasKept plain (after-IsReached events three_packets three_packets start)
      three_packets-IsConsistent store-IsNumbered
