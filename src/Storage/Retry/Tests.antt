-- ===== src/Storage/Retry/Tests.antt =====
-- Three busy answers, and then the write goes through.
use mesh_monday.Base.{◌≡◌, refl, none, some, [], ◌∷◌, ◌++◌, arith, codes, ok, replicate, any_of}
use mesh_monday.Go.Text.{contains, to_upper}
use mesh_monday.Checkins.Tests.{plain}
use mesh_monday.Storage.Schema.{Db, RawPacket, empty_db}
use mesh_monday.Storage.Exec.{SqlError, fault, exec, is_sqlite_busy_error}
use mesh_monday.Storage.Statements.{insert_raw}
use mesh_monday.Storage.Retry.{retry}
use mesh_monday.Storage.Retry.Bounds.{retry_busy}

abbrev locked : SqlError
locked = fault (codes "database is locked (5) (SQLITE_BUSY)")

abbrev packet : RawPacket
packet = record {
  id = 1;
  packet_hash = codes "ab";
  topic = [];
  iata = [];
  device_public_key = [];
  payload_hex = [];
  payload_type = 4;
  payload_type_name = [];
  route_type = 1;
  route_type_name = [];
  path_len = 0;
  observed_at = 1;
  received_at = 2;
}

abbrev one_packet : Db
one_packet = record empty_db { raw_packets = packet ∷ []; next_raw = 2 }

retry_busy_example :
    retry plain 15
      (exec (insert_raw packet))
      (record { db = empty_db; faults = replicate 3 (some locked) ++ (none ∷ []); waits = [] })
    ≡ (ok 1, record { db = one_packet; faults = []; waits = [] })
unfolding is_sqlite_busy_error insert_raw contains to_upper any_of
retry_busy_example =
    retry_busy plain locked (insert_raw packet) 15 3 refl (omega arith) empty_db [] 1 one_packet
      refl
